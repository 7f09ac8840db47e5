-- ===== src/Store/Login/Accounts/Usernames.antt =====
-- internal/store/store.go: the usernames of accounts that OIDC logins create.
use Prim.Native.Char.{Char}
use Prim.Native.String.{[], ◌∷◌}
use tintwire.Prelude.{
  ℕ, ◌+◌, ◌≤◌, String, true, ◌==◌, string_eq, nat_eq, leb, ◌≡◌, refl, trim_space, byte_length,
  byte_length-append, all_chars, all_chars-append, arith, Bool-cases, inl, inr,
}
use tintwire.Store.Login.{Platform}
use tintwire.Store.Login.Accounts.{
  is_plain, is_dash, write_rune, plain_from, trim_dashes_left, trim_dashes_right, cons_unless_dash,
  normalize_username, base_username,
}

-- A text of plain characters, at most so many bytes long.
record IsPlain (limit : ℕ) (s : String) : Type 0 where
  chars : all_chars is_plain s ≡ true
  bytes : byte_length s ≤ limit

write_rune-IsPlain :
    (n : ℕ) (r : Char) (b : String) → IsPlain n b → IsPlain (n + 1) (write_rune r b)
write_rune-IsPlain n r b h = elim (Bool-cases (is_plain r)) [
  | inl plain ↦ record {
    chars = rw (plain, all_chars-append is_plain b) (unfold all_chars in ground arith);
    bytes = rw (plain, byte_length-append b) (unfold byte_length in ground arith);
  }
  | inr other ↦ elim (Bool-cases (b == "")) [
    | inl empty ↦ rw (other, empty) (record { chars = h.chars; bytes = omega (arith, h.bytes) })
    | inr written ↦ record {
      chars = rw (other, written, all_chars-append is_plain b) (unfold all_chars in ground arith);
      bytes = rw (other, written, byte_length-append b) (unfold byte_length in ground arith);
    }
  ]
]

plain_from-IsPlain : (value b : String) → IsPlain 79 b → IsPlain 80 (plain_from value b)
unfolding plain_from
plain_from-IsPlain [] b h = record { chars = h.chars; bytes = omega (arith, h.bytes) }
plain_from-IsPlain (r ∷ value) b h =
    let next = write_rune-IsPlain 79 r b h in
    elim (Bool-cases (leb 80 (byte_length (write_rune r b)))) [
      | inl full ↦ rw full (record { chars = next.chars; bytes = next.bytes })
      | inr room ↦ rw room (
          plain_from-IsPlain value (write_rune r b)
            (record { chars = next.chars; bytes = ground arith }))
    ]

trim_left-IsPlain : (n : ℕ) (s : String) → IsPlain n s → IsPlain n (trim_dashes_left s)
unfolding trim_dashes_left all_chars byte_length
trim_left-IsPlain n [] h = h
trim_left-IsPlain n (c ∷ s) h = elim (Bool-cases (is_dash c)) [
  | inl dash ↦ rw dash (
      trim_left-IsPlain n s
        (record { chars = ground (arith, h.chars); bytes = omega (arith, h.bytes) }))
  | inr other ↦ rw other h
]

cons_unless_dash-IsPlain :
    (n : ℕ) (c : Char) (s t : String)
    → all_chars is_plain (c ∷ s) ≡ true
    → byte_length (c ∷ s) ≤ n
    → all_chars is_plain t ≡ true
    → byte_length t ≤ byte_length s
    → IsPlain n (cons_unless_dash c t)
unfolding all_chars byte_length
cons_unless_dash-IsPlain n c s [] hc hb kept fits = elim (Bool-cases (is_dash c)) [
  | inl dash ↦ rw dash (record { chars = refl; bytes = omega arith })
  | inr other ↦ rw other (record { chars = ground arith; bytes = ground arith })
]
cons_unless_dash-IsPlain n c s (d ∷ t) hc hb kept fits = record {
  chars = ground arith;
  bytes = omega arith;
}

trim_right-IsPlain :
    (n : ℕ) (s : String)
    → all_chars is_plain s ≡ true
    → byte_length s ≤ n
    → IsPlain n (trim_dashes_right s)
unfolding trim_dashes_right
trim_right-IsPlain n [] hc hb = record { chars = hc; bytes = hb }
trim_right-IsPlain n (c ∷ s) hc hb =
    let rest =
      trim_right-IsPlain (byte_length s) s (unfold all_chars in ground arith) (omega arith) in
    cons_unless_dash-IsPlain n c s (trim_dashes_right s) hc hb rest.chars rest.bytes

-- A normalized username has at most 80 bytes, all of them lower-case letters, digits, `-` and `_`.
pub normalize_username-plain :
    (platform : Platform) (value : String)
    → (all_chars is_plain (normalize_username platform value) ≡ true)
      × (byte_length (normalize_username platform value) ≤ 80)
unfolding normalize_username
normalize_username-plain platform value =
    let written =
      plain_from-IsPlain (platform.to_lower (trim_space value)) []
        (record { chars = unfold all_chars in refl; bytes = unfold byte_length in omega arith }) in
    let right = trim_right-IsPlain 80 _ written.chars written.bytes in
    let both = trim_left-IsPlain 80 _ right in (both.chars, both.bytes)

pub base-plain :
    (platform : Platform) (preferred : String)
    → all_chars is_plain (base_username platform preferred) ≡ true
base-plain platform preferred = elim (Bool-cases (normalize_username platform preferred == "")) [
  | inl empty ↦ rw empty (unfold all_chars in refl)
  | inr named ↦ rw named (normalize_username-plain platform preferred).0
]
