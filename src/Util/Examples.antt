-- ===== src/Util/Examples.antt =====
-- Addresses with and without a port.
use zip_log_ae.Util.Address.{
  default_port, split_address, at_colon, stoi, read_digits, to_digits, split_address-joined,
}
use zip_log_ae.Base.{ℕ, ◌≡◌, refl, none, some, List, [], ◌∷◌, ◌++◌, arith}

abbrev host : List ℕ
host = b'1' ∷ b'0' ∷ b'.' ∷ b'2' ∷ []

split_address-joined_example :
    (split_address (host ++ 58 ∷ to_digits 5 7777) ≡ some (host, 7777))
    × (split_address host ≡ some (host, default_port))
split_address-joined_example =
    split_address-joined host 7777 (refl, (refl, (refl, (refl, tt)))) (omega arith)

no_number : split_address (host ++ 58 ∷ b'x' ∷ []) ≡ none
unfolding split_address at_colon stoi read_digits
no_number = refl

-- A number that is no port is cut to 16 bits.
cut_port : split_address (host ++ 58 ∷ b'7' ∷ b'0' ∷ b'0' ∷ b'0' ∷ b'0' ∷ []) ≡ some (host, 4464)
unfolding split_address at_colon stoi read_digits
cut_port = refl

negative_port : split_address (host ++ 58 ∷ b'-' ∷ b'1' ∷ []) ≡ some (host, 65535)
unfolding split_address at_colon stoi read_digits
negative_port = refl
