-- ===== src/Session/Times.antt =====
-- The time of an object in a listing.
use asio_ftp.Base.{ℕ, ◌+◌, ◌/◌, ◌%◌, ◌≡◌, refl, List, [], ◌∷◌, ◌++◌, Bytes, codes, All}
use asio_ftp.Session.Listing.{parse_metadata_time}

-- The months as a listing names them, from 1.
abbrev pub months : List (ℕ × Bytes)
months =
    (1, codes "Jan")
    ∷ (2, codes "Feb")
    ∷ (3, codes "Mar")
    ∷ (4, codes "Apr")
    ∷ (5, codes "May")
    ∷ (6, codes "Jun")
    ∷ (7, codes "July")
    ∷ (8, codes "Aug")
    ∷ (9, codes "Sep")
    ∷ (10, codes "Oct")
    ∷ (11, codes "Nov")
    ∷ (12, codes "Dec")
    ∷ []

-- The format in which the table keeps a time, with two digits for the
-- month.
abbrev pub kept_time : Bytes → ℕ → Bytes → Bytes → Bytes → Bytes
kept_time year month day hour_minute second =
    year
    ++ (b'-' ∷ (b'0' + month / 10) ∷ (b'0' + month % 10) ∷ b'-' ∷ day
        ++ (b' ' ∷ hour_minute ++ (b':' ∷ second)))

-- The bytes of the year, the day, the hour, the minute and the second.
module _ (a b c d e f g h i j k l : ℕ) where
  abbrev pub Listed : ℕ × Bytes → Type 0
  Listed (m, name) =
      parse_metadata_time
        (kept_time (a ∷ b ∷ c ∷ d ∷ []) m (e ∷ f ∷ []) (g ∷ h ∷ b':' ∷ i ∷ j ∷ []) (k ∷ l ∷ []))
      ≡ name ++ (b' ' ∷ e ∷ f ∷ b' ' ∷ g ∷ h ∷ b':' ∷ i ∷ j ∷ [])

  -- Of a time as the table keeps it, a listing shows the name of the month, the day, and the hour
  -- with the minute, for each of the twelve months.
  parse_metadata_time-months : All Listed months
  unfolding parse_metadata_time
  parse_metadata_time-months = (
    refl,
    (refl, (refl, (refl, (refl, (refl, (refl, (refl, (refl, (refl, (refl, (refl, tt))))))))))),
  )
