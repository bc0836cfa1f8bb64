-- ===== src/Store/ReadJson.antt =====
-- A reader of JSON strings, to read back what the store escapes.
use lens.Prelude.{
  subst, ==_iff, le→ltb, lt→ltb, &&_true, leb→le, ℕ, zero, suc, ◌+◌, ◌-◌, ◌*◌, ◌/◌, ◌%◌, ◌<◌, ◌≤◌,
  Bool, true, false, ◌&&◌, [], ◌∷◌, ◌++◌, Option, none, some, leb, ltb, ◌==◌, if◌then◌else◌, ◌≡◌,
  refl, ap, ◌∙◌, sym, arith, Bool-cases, inl, inr, append_assoc,
}
use lens.Text.Number.{hex_digit}
use lens.Store.Json.{unicode_escape, escape_ascii, escape_from, escape_json, quoted}
use lens.Text.{Bytes, str, is_ascii_control}

-- Inside of a string: between characters, behind a backslash, or with the value of the hexadecimal
-- digits so far and the number of those behind the next one.
pub data Mode : Type 0 where
  between : Mode
  behind_backslash : Mode
  digits : ℕ → ℕ → Mode

mode_after : ℕ → Mode
mode_after c = if c == b'\\' then behind_backslash else between

-- The character that a letter behind a backslash stands for.
short_escape : ℕ → Option ℕ
short_escape c =
    if c == b'"'
    then some b'"'
    else if c == b'\\'
    then some b'\\'
    else if c == b'n'
    then some b'\n'
    else if c == b'r'
    then some b'\r'
    else if c == b't'
    then some b'\t'
    else none

hex_value : ℕ → ℕ
hex_value c = if ltb c b'a' then c - b'0' else 10 + (c - b'a')

-- UTF-8 of a character below U+0800
encode : ℕ → Bytes
encode n = if ltb n 128 then n ∷ [] else (192 + n / 64) ∷ (128 + n % 64) ∷ []

abbrev prefix : Bytes → Option (Bytes × Bytes) → Option (Bytes × Bytes)
prefix text none = none
prefix text (some (read, rest)) = some (text ++ read, rest)

abbrev prefix_short : Option ℕ → Option (Bytes × Bytes) → Option (Bytes × Bytes)
prefix_short none next = none
prefix_short (some c) next = prefix (c ∷ []) next

-- The text of the string, and what stands behind its closing quote.
unfoldable pub read_from : Mode → Bytes → Option (Bytes × Bytes)
unfolding mode_after short_escape hex_value encode
read_from mode [] = none
read_from between (c ∷ s) =
    let next = read_from (mode_after c) s in
    if c == b'"'
    then some ([], s)
    else if c == b'\\'
    then next
    else if ltb c 32
    then none
    else prefix (c ∷ []) next
read_from behind_backslash (c ∷ s) =
    let next = read_from (if c == b'u' then digits 0 3 else between) s in
    if c == b'u' then next else prefix_short (short_escape c) next
read_from (digits value zero) (c ∷ s) =
    let next = read_from between s in prefix (encode (value * 16 + hex_value c)) next
read_from (digits value (suc k)) (c ∷ s) = read_from (digits (value * 16 + hex_value c) k) s

unfoldable pub read_string : Bytes → Option (Bytes × Bytes)
unfolding read_from
read_string [] = none
read_string (c ∷ s) = if c == b'"' then read_from between s else none

digit-value : (n : ℕ) → n < 16 → hex_value (hex_digit n) ≡ n
unfolding hex_value
digit-value n h = ground arith

read-unicode_escape :
    (c : ℕ) (s : Bytes)
    → c < 256
    → read_from between (unicode_escape c ++ s) ≡ prefix (encode c) (read_from between s)
unfolding read_from str hex_value
read-unicode_escape c s h =
    let hi = hex_value (hex_digit (c / 16)) in
    let lo = hex_value (hex_digit (c % 16)) in
    let v : (((0 * 16 + 0) * 16 + 0) * 16 + hi) * 16 + lo ≡ c =
      omega (arith, digit-value (c / 16) (omega arith), digit-value (c % 16) (omega arith)) in
    ap (λ n. prefix (encode n) (read_from between s)) v

abbrev ReadsAs : Bytes → ℕ → Type 0
ReadsAs text c = (s : Bytes) → read_from between (text ++ s) ≡ prefix (c ∷ []) (read_from between s)

read-plain : (c : ℕ) → 32 ≤ c → (c == b'"') ≡ false → (c == b'\\') ≡ false → ReadsAs (c ∷ []) c
unfolding read_from mode_after
read-plain c h q b s = rw (q, b, le→ltb c 32 h, read_from, mode_after) refl

read-control : (c : ℕ) → c < 128 → ReadsAs (unicode_escape c) c
unfolding encode
read-control c h s =
    let one : encode c ≡ c ∷ [] = rw (lt→ltb c 128 h, encode) refl in
    read-unicode_escape c s (omega arith) ∙ ap (λ e. prefix e (read_from between s)) one

read-rest :
    (c : ℕ)
    → (c == b'"') ≡ false
    → (c == b'\\') ≡ false
    → ReadsAs (if is_ascii_control c then unicode_escape c else c ∷ []) c
read-rest c q b = elim (Bool-cases (is_ascii_control c)) [
  | inl e ↦
      let same : (if is_ascii_control c then unicode_escape c else c ∷ []) ≡ unicode_escape c =
        rw e refl in
      subst (λ text. ReadsAs text c) (sym same) (read-control c (ground (arith, e)))
  | inr e ↦
      let same : (if is_ascii_control c then unicode_escape c else c ∷ []) ≡ c ∷ [] = rw e refl in
      subst (λ text. ReadsAs text c) (sym same) (read-plain c (ground (arith, e)) q b)
]

-- One character as it is written.
read-escape_ascii : (c : ℕ) → ReadsAs (escape_ascii c) c
unfolding read_from str short_escape mode_after
read-escape_ascii c = elim (Bool-cases (c == b'"')) [
  | inl e ↦ subst (λ n. ReadsAs (escape_ascii n) n) (sym ((==_iff c b'"').0 e)) (λ s. refl)
  | inr q ↦ elim (Bool-cases (c == b'\\')) [
    | inl e ↦ subst (λ n. ReadsAs (escape_ascii n) n) (sym ((==_iff c b'\\').0 e)) (λ s. refl)
    | inr b ↦ elim (Bool-cases (c == b'\n')) [
      | inl e ↦ subst (λ n. ReadsAs (escape_ascii n) n) (sym ((==_iff c b'\n').0 e)) (λ s. refl)
      | inr n ↦ elim (Bool-cases (c == b'\r')) [
        | inl e ↦ subst (λ n. ReadsAs (escape_ascii n) n) (sym ((==_iff c b'\r').0 e)) (λ s. refl)
        | inr r ↦ elim (Bool-cases (c == b'\t')) [
          | inl e ↦ subst (λ n. ReadsAs (escape_ascii n) n) (sym ((==_iff c b'\t').0 e)) (λ s. refl)
          | inr t ↦
              let rest : escape_ascii c
                  ≡ (if is_ascii_control c then unicode_escape c else c ∷ []) =
                rw (q, b, n, r, t) refl in
              subst (λ text. ReadsAs text c) (sym rest) (read-rest c q b)
        ]
      ]
    ]
  ]
]

abbrev behind : Bytes → Bytes → Bytes
behind text rest = text ++ b'"' ∷ rest

-- The flag of `escape_from` is a byte that is still to be read.
abbrev held : Bool → Bytes
held true = 0xc2 ∷ []
held false = []

read-then :
    (text tail rest : Bytes) (c : ℕ) (t : Bytes)
    → ReadsAs text c
    → read_from between (behind tail rest) ≡ some (t, rest)
    → read_from between (behind (text ++ tail) rest) ≡ some (c ∷ t, rest)
read-then text tail rest c t h e =
    ap (read_from between) (append_assoc text tail (b'"' ∷ rest))
    ∙ h (behind tail rest)
    ∙ ap (prefix (c ∷ [])) e

read-two :
    (d : ℕ) (tail rest t : Bytes)
    → 128 ≤ d
    → d ≤ 159
    → read_from between (behind tail rest) ≡ some (t, rest)
    → read_from between (behind (unicode_escape d ++ tail) rest) ≡ some (0xc2 ∷ d ∷ t, rest)
unfolding encode
read-two d tail rest t h k e =
    let two : encode d ≡ 0xc2 ∷ d ∷ [] =
      rw (le→ltb d 128 h, encode)
        (ap (λ x. x ∷ (128 + d % 64) ∷ []) (omega arith) ∙ ap (λ x. 0xc2 ∷ x ∷ []) (omega arith)) in
    ap (read_from between) (append_assoc (unicode_escape d) tail (b'"' ∷ rest))
    ∙ read-unicode_escape d (behind tail rest) (omega arith)
    ∙ ap (λ x. prefix x (read_from between (behind tail rest))) two
    ∙ ap (prefix (0xc2 ∷ d ∷ [])) e

read-escape_from :
    (flag : Bool) (text rest : Bytes)
    → read_from between (behind (escape_from flag text) rest) ≡ some (held flag ++ text, rest)
unfolding escape_from read_from mode_after
read-escape_from false [] rest = refl
read-escape_from true [] rest = refl
read-escape_from false (c ∷ text) rest = elim (Bool-cases (c == 0xc2)) [
  | inl e ↦
      rw (e, escape_from)
        (read-escape_from true text rest
          ∙ ap (λ n. some (n ∷ text, rest)) (sym ((==_iff c 0xc2).0 e)))
  | inr e ↦
      rw (e, escape_from)
        (read-then (escape_ascii c) (escape_from false text) rest c text (read-escape_ascii c)
          (read-escape_from false text rest))
]
read-escape_from true (d ∷ text) rest = elim (Bool-cases (leb 0x80 d && leb d 0x9f)) [
  | inl e ↦
      let (lo, hi) = &&_true (leb 0x80 d) (leb d 0x9f) e in
      rw (e, escape_from)
        (read-two d (escape_from false text) rest text (leb→le 0x80 d lo) (leb→le d 0x9f hi)
          (read-escape_from false text rest))
  | inr e ↦
      rw (e, escape_from)
        (read-then (0xc2 ∷ []) (escape_ascii d ++ escape_from false text) rest 0xc2 (d ∷ text)
          (read-plain 0xc2 (omega arith) refl refl)
          (read-then (escape_ascii d) (escape_from false text) rest d text (read-escape_ascii d)
            (read-escape_from false text rest)))
]

-- A text that the store writes into its JSON, quoted and escaped, is read back as the text itself
-- and ends where its closing quote stands, whatever bytes it has and whatever follows.
pub read_string-quoted : (text rest : Bytes) → read_string (quoted text ++ rest) ≡ some (text, rest)
unfolding read_string quoted escape_json str
read_string-quoted text rest =
    ap (read_from between) (append_assoc (escape_from false text) (b'"' ∷ []) rest)
    ∙ read-escape_from false text rest
