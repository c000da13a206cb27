-- ===== src/Base/Maps.antt =====
-- `std::map` from texts to texts, as the sequence of its entries in their order.
use mathlib.Core.Path.{◌≡◌, refl}
use mathlib.Core.Bool.{Bool, true, false, ◌&&◌, ◌||◌}
use mathlib.Core.Option.{Option, none, some}
use mathlib.Core.List.{List, [], ◌∷◌}
use native.Mathlib.Omega.{arith}
use mathlib.Core.Logic.{inl, inr}
use asio_ftp.Base.Tests.{Bool-cases, ◌==◌, ltb, if◌then◌else◌}
use asio_ftp.Base.Text.{Bytes, same, same→≡, same_iff}

-- `operator<` of `std::string`.
unfoldable pub less : Bytes → Bytes → Bool
less [] [] = false
less [] (d ∷ t) = true
less (c ∷ s) [] = false
less (c ∷ s) (d ∷ t) = ltb c d || (c == d && less s t)

pub record Entry : Type 0 where
  pub key : Bytes
  pub value : Bytes

abbrev pub Map : Type 0
Map = List Entry

-- `m.find(k)`
unfoldable pub find_key : Bytes → Map → Option Bytes
find_key k [] = none
find_key k (e ∷ m) = if same k e.key then some e.value else find_key k m

-- `m[k] = v`
unfoldable pub put_key : Bytes → Bytes → Map → Map
put_key k v [] = record { key = k; value = v } ∷ []
put_key k v (e ∷ m) =
    let rest = put_key k v m in
    if same k e.key
    then record { key = k; value = v } ∷ m
    else if less k e.key
    then record { key = k; value = v } ∷ e ∷ m
    else e ∷ rest

pub find-put :
    (k v k' : Bytes) (m : Map)
    → find_key k' (put_key k v m) ≡ (if same k' k then some v else find_key k' m)
unfolding find_key put_key
find-put k v k' [] = refl
find-put k v k' (e ∷ m) = elim (Bool-cases (same k e.key)) [
  | inl here ↦ rw (here, same→≡ k e.key here) (ground arith)
  | inr there ↦
      ground (arith, there, find-put k v k' m, same_iff k' k, same_iff k' e.key, same_iff k e.key)
]
