-- ===== src/Session/Messages.antt =====
-- The texts that go over the control channel: a received command, and the answer to PASV.
use asio_ftp.Base.{
  ℕ, suc, ◌+◌, ◌-◌, ◌≤◌, ◌≢◌, List, leb, length-take, Bool-cases, inl, inr, ◌*◌, ◌/◌, ◌%◌, ◌<◌, ◌≡◌,
  refl, ap, [], ◌∷◌, ◌++◌, Bytes, codes, is_empty, false, length, take, take_left, Lacks, arith,
  returned,
}
use asio_ftp.Helpers.Strings.{string_split, string_join, string_to_uppercase}
use asio_ftp.Helpers.Strings.Split.{replace-join-split}
use asio_ftp.Helpers.Strings.Parts.{split_one, split_first}
use asio_ftp.Helpers.Decimal.{to_string}
use asio_ftp.Session.Insecure.{pasv_response}
use asio_ftp.Helpers.Strings.Split.{split_loop-ne-nil}
use asio_ftp.Session.State.{ErrorCode, success}
use asio_ftp.Session.Handler.{
  Message, no_message, message_of, parse_buffer, handle_control_receive_callback,
}

abbrev space : ℕ
space = b' '

line_of_buffer : (line rest : Bytes) → take ((length line + 2) - 2) (line ++ rest) ≡ line
line_of_buffer line rest =
    let bare : (length line + 2) - 2 ≡ length line = omega arith in
    rw (bare, take_left line rest) refl

-- A line of a command with no space, a space and any argument, with two bytes behind it, is read as
-- the command in upper case and the whole argument, spaces included.
pub parse_buffer-argument :
    (command argument rest : Bytes)
    → Lacks space command
    → let line = command ++ space ∷ argument in
      parse_buffer (line ++ rest) (length line + 2)
      ≡ returned (record { command = string_to_uppercase command; argument = argument })
unfolding parse_buffer
parse_buffer-argument command argument rest h =
    let (parts, split, filled, joined) = split_first space command argument h in
    rw (line_of_buffer (command ++ space ∷ argument) rest, split)
      (ap (λ a. returned (record { command = string_to_uppercase command; argument = a })) joined)

-- A line of a command that is not empty and has no space, with two bytes behind it, is read as the
-- command in upper case with no argument.
parse_buffer-bare :
    (command rest : Bytes)
    → Lacks space command
    → is_empty command ≡ false
    → parse_buffer (command ++ rest) (length command + 2)
      ≡ returned (record { command = string_to_uppercase command; argument = [] })
unfolding parse_buffer string_join
parse_buffer-bare command rest h filled =
    rw (line_of_buffer command rest, split_one space command h filled) refl

-- The answer to PASV: the address with commas for points, and two bytes from which a client puts the
-- port together, for every port of 16 bits.
pub pasv_response-port :
    (address : Bytes) (port : ℕ)
    → port < 65536
    → (high low : ℕ) × (high < 256)
      × (low < 256)
      × (256 * high + low ≡ port)
      × (pasv_response address port
          ≡ codes "227 Entering Passive Mode ("
            ++ (string_join (string_split address (codes ".")) (codes ",")
                ++ (codes "," ++ (to_string high ++ (codes "," ++ (to_string low ++ codes ")"))))))
unfolding pasv_response
pasv_response-port address port h = (
  port / 256,
  port % 256,
  omega (arith, h),
  omega arith,
  omega arith,
  rw (replace-join-split address (codes ".") (codes ",")) refl,
)

message_of_ne_nil :
    (parts : List Bytes) → parts ≢ [] → (message : Message) × (message_of parts ≡ returned message)
message_of_ne_nil [] h = absurd (h refl)
message_of_ne_nil (command ∷ arguments) h = (_, refl)

split-ne-nil : (s d : Bytes) → d ≢ [] → 0 < length s → string_split s d ≢ []
unfolding string_split
split-ne-nil s d h p = ground (arith, split_loop-ne-nil d h (suc (length s)) s (omega arith))

-- A read that gives no more bytes than the buffer has is turned into a message.
pub handle_control_receive_callback-returns :
    (ec : ErrorCode) (buffer : Bytes) (bytes_received : ℕ)
    → bytes_received ≤ length buffer
    → (message : Message) × (handle_control_receive_callback ec buffer bytes_received
        ≡ returned message)
unfolding handle_control_receive_callback parse_buffer
handle_control_receive_callback-returns success buffer bytes_received h =
    elim (Bool-cases (leb bytes_received 2)) [
      | inl few ↦ (no_message, rw few refl)
      | inr more ↦
          let parts = string_split (take (bytes_received - 2) buffer) (codes " ") in
          let cut : length (take (bytes_received - 2) buffer) ≡ bytes_received - 2 =
            length-take (bytes_received - 2) buffer (omega (arith, h)) in
          let (message, e) = message_of_ne_nil parts (
            split-ne-nil (take (bytes_received - 2) buffer) (codes " ") (λ q. cc q)
              (ground (arith, more, cut))) in
          (message, rw more e)
    ]
handle_control_receive_callback-returns _ buffer bytes_received h = (no_message, refl)
