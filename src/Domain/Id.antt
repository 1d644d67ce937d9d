-- ===== src/Domain/Id.antt =====
-- internal/domain/id.go: identities are 16 bytes, written as canonical UUIDs. The package's five
-- identity types are one type here. An index into a text counts code points where the source
-- counts bytes: a text that is not ASCII is refused either way, since its other characters must be
-- hexadecimal digits.
use jungle_wager_engine.Base.{
  ℕ, ◌+◌, ◌*◌, ◌-◌, ◌/◌, ◌%◌, Bool, ◌&&◌, ◌||◌, not, Option, none, some, List, [], ◌∷◌, ◌++◌, Text,
  codes, eq_text, eq_text_refl, eq_text→eq, ◌≡◌, true, len, take, drop, ltb, leb, ◌==◌,
  if◌then◌else◌,
}
use jungle_wager_engine.Domain.Errors.{Result, ok, err, invalid, invalid_id, ◌>>◌, refuse}

abbrev pub Uuid : Type 0
Uuid = List ℕ

-- `ID{}`
abbrev pub zero_id : Uuid
zero_id = 0 ∷ 0 ∷ 0 ∷ 0 ∷ 0 ∷ 0 ∷ 0 ∷ 0 ∷ 0 ∷ 0 ∷ 0 ∷ 0 ∷ 0 ∷ 0 ∷ 0 ∷ 0 ∷ []

unfoldable pub is_zero_id : Uuid → Bool
is_zero_id u = eq_text u zero_id

unfoldable pub eq_id : Uuid → Uuid → Bool
eq_id u v = eq_text u v

pub eq_id→eq : (u v : Uuid) → eq_id u v ≡ true → u ≡ v
unfolding eq_id
eq_id→eq u v h = eq_text→eq u v h

pub eq_id_refl : (u : Uuid) → eq_id u u ≡ true
unfolding eq_id
eq_id_refl u = eq_text_refl u

-- `hex.Decode`
unfoldable pub hex_digit : ℕ → Option ℕ
hex_digit c =
    if leb b'0' c && leb c b'9'
    then some (c - b'0')
    else if leb b'a' c && leb c b'f'
    then some (c - b'a' + 10)
    else if leb b'A' c && leb c b'F'
    then some (c - b'A' + 10)
    else none

abbrev hex_byte : Option ℕ → Option ℕ → Option Text → Option Text
hex_byte (some h) (some l) (some rest) = some ((h * 16 + l) ∷ rest)
hex_byte _ _ _ = none

unfoldable pub hex_decode : Text → Option Text
unfolding hex_digit
hex_decode [] = some []
hex_decode (c ∷ []) = none
hex_decode (c ∷ d ∷ s) = hex_byte (hex_digit c) (hex_digit d) (hex_decode s)

-- `hex.Encode`
unfoldable pub hex_char : ℕ → ℕ
hex_char n = if ltb n 10 then b'0' + n else b'a' + n - 10

unfoldable pub hex_encode : Text → Text
unfolding hex_char
hex_encode [] = []
hex_encode (b ∷ s) = hex_char (b / 16) ∷ hex_char (b % 16) ∷ hex_encode s

is_dash_at : ℕ → Text → Bool
is_dash_at i s = eq_text (take 1 (drop i s)) (codes "-")

-- The 32 digits between the dashes.
compact : Text → Text
compact s =
    take 8 s ++ (take 4 (drop 9 s) ++ (take 4 (drop 14 s) ++ (take 4 (drop 19 s) ++ drop 24 s)))

nonzero : Option Text → Result Uuid
nonzero none = err (invalid invalid_id)
nonzero (some u) = if eq_text u zero_id then err (invalid invalid_id) else ok u

unfoldable pub parse_id : Text → Result Uuid
unfolding is_dash_at compact nonzero hex_decode
parse_id s = do
  refuse
      (not (len s == 36)
        || not (is_dash_at 8 s)
        || not (is_dash_at 13 s)
        || not (is_dash_at 18 s)
        || not (is_dash_at 23 s))
      (invalid invalid_id)
  nonzero (hex_decode (compact s))

unfoldable pub id_string : Uuid → Text
unfolding hex_encode
id_string u =
    hex_encode (take 4 u)
    ++ (codes "-"
        ++ (hex_encode (take 2 (drop 4 u))
            ++ (codes "-"
                ++ (hex_encode (take 2 (drop 6 u))
                    ++ (codes "-"
                        ++ (hex_encode (take 2 (drop 8 u))
                            ++ (codes "-" ++ hex_encode (take 6 (drop 10 u)))))))))
