-- ===== src/Redact/Form.antt =====
-- Queries and forms, pair by pair.
use lens.Prelude.{
  ℕ, Bool, true, false, List, [], ◌∷◌, ◌++◌, Option, none, some, ◌==◌, All, All-append, map, ◌≡◌,
  refl, sym, ap, ◌∙◌, subst, Bool-cases, inl, inr, ◌⊎◌, if◌then◌else◌,
}
use lens.Redact.Names.{replacement, is_sensitive_name}
use lens.Redact.Pairs.{
  redact_pair, redact_pairs, redact_parts, with_value, is_sensitive_key, pair_parts,
  percent_decode_name,
}
use lens.Text.{Bytes, str, join}
use lens.Text.Split.{
  Free, split_byte_pieces, split_byte-join, SplitOnce, split_once-SplitOnce, split_once-append,
  split_byte_cons,
}
use lens.Text.Words.{split_byte, split_once}

abbrev equals : ℕ
equals = b'='

abbrev ampersand : ℕ
ampersand = b'&'

-- The name of a pair: what stands before the first `=`, or all of it.
abbrev pub Named : Bytes → Bytes → Type 0
Named name pair =
    Free equals name × ((pair ≡ name) ⊎ ((value : Bytes) × (pair ≡ name ++ equals ∷ value)))

-- A pair with a sensitive name shows the replacement for its value, and any other is as it was.
abbrev pub PairInv : Bytes → Bytes → Type 0
PairInv pair redacted =
    (name : Bytes) × Named name pair
    × (((is_sensitive_name (percent_decode_name name) ≡ true)
          × (redacted ≡ name ++ equals ∷ replacement))
        ⊎ ((is_sensitive_name (percent_decode_name name) ≡ false) × (redacted ≡ pair)))

-- Two lists of the same length, related place by place.
unfoldable pub Pairwise : (Bytes → Bytes → Type 0) → List Bytes → List Bytes → Type 0
Pairwise R [] [] = Unit
Pairwise R (x ∷ xs) (y ∷ ys) = R x y × Pairwise R xs ys
Pairwise R _ _ = ⊥

Free-prefix : (separator : ℕ) (xs ys : Bytes) → Free separator (xs ++ ys) → Free separator xs
Free-prefix separator [] ys h = tt
Free-prefix separator (x ∷ xs) ys h = (h.0, Free-prefix separator xs ys h.1)

Named-Free : (name pair : Bytes) → Named name pair → Free ampersand pair → Free ampersand name
Named-Free name pair (e, inl same) f = subst (Free ampersand) same f
Named-Free name pair (e, inr (value, same)) f =
    Free-prefix ampersand name (equals ∷ value) (subst (Free ampersand) same f)

-- By what `split_once` finds.
parts-PairInv :
    (pair : Bytes) (o : Option (Bytes × Bytes))
    → SplitOnce equals pair o
    → PairInv pair (redact_parts (pair_parts pair o))
unfolding is_sensitive_key
parts-PairInv pair none h =
    let choose = λ (b : Bool). if b then with_value pair replacement else pair in
    elim (Bool-cases (is_sensitive_key pair)) [
      | inl s ↦ (pair, (h, inl refl), inl (s, ap choose s))
      | inr s ↦ (pair, (h, inl refl), inr (s, ap choose s))
    ]
parts-PairInv pair (some (name, value)) h =
    let choose = λ (b : Bool). if b then with_value name replacement else with_value name value in
    elim (Bool-cases (is_sensitive_key name)) [
      | inl s ↦ (name, (h.1, inr (value, h.0)), inl (s, ap choose s))
      | inr s ↦ (name, (h.1, inr (value, h.0)), inr (s, ap choose s ∙ sym h.0))
    ]

redact_pair-PairInv : (pair : Bytes) → PairInv pair (redact_pair pair)
unfolding redact_pair
redact_pair-PairInv pair =
    parts-PairInv pair (split_once equals pair) (split_once-SplitOnce equals pair)

map-Pairwise : (pairs : List Bytes) → Pairwise PairInv pairs (map redact_pair pairs)
unfolding Pairwise
map-Pairwise [] = tt
map-Pairwise (pair ∷ pairs) = (redact_pair-PairInv pair, map-Pairwise pairs)

with_value-Free :
    (name : Bytes) → Free ampersand name → Free ampersand (with_value name replacement)
unfolding str
with_value-Free name f =
    All-append (λ c. (c == ampersand) ≡ false) name (equals ∷ replacement) f
      (refl, (refl, (refl, (refl, (refl, (refl, (refl, (refl, (refl, (refl, (refl, tt)))))))))))

redact_pair-Free : (pair : Bytes) → Free ampersand pair → Free ampersand (redact_pair pair)
redact_pair-Free pair f =
    let (name, n, outcome) = redact_pair-PairInv pair in
    elim outcome [
      | inl (s, r) ↦
          subst (Free ampersand) (sym r) (with_value-Free name (Named-Free name pair n f))
      | inr (s, r) ↦ subst (Free ampersand) (sym r) f
    ]

redact_pair-with_value :
    (name : Bytes)
    → is_sensitive_name (percent_decode_name name) ≡ true
    → Free equals name
    → redact_pair (with_value name replacement) ≡ with_value name replacement
unfolding redact_pair is_sensitive_key
redact_pair-with_value name s e =
    ap (λ o. redact_parts (pair_parts (with_value name replacement) o))
      (split_once-append equals name replacement e)
    ∙ ap (λ b. if b then with_value name replacement else with_value name replacement) s

redact_pair-redact_pair : (pair : Bytes) → redact_pair (redact_pair pair) ≡ redact_pair pair
redact_pair-redact_pair pair =
    let (name, n, outcome) = redact_pair-PairInv pair in
    elim outcome [
      | inl (s, r) ↦ ap redact_pair r ∙ redact_pair-with_value name s n.0 ∙ sym r
      | inr (s, r) ↦ ap redact_pair r
    ]

map-Free :
    (pairs : List Bytes) → All (Free ampersand) pairs → All (Free ampersand) (map redact_pair pairs)
map-Free [] h = tt
map-Free (pair ∷ pairs) h = (redact_pair-Free pair h.0, map-Free pairs h.1)

map-redact_pair :
    (pairs : List Bytes) → map redact_pair (map redact_pair pairs) ≡ map redact_pair pairs
map-redact_pair [] = refl
map-redact_pair (pair ∷ pairs) =
    ap (◌∷ map redact_pair (map redact_pair pairs)) (redact_pair-redact_pair pair)
    ∙ ap (redact_pair pair ∷◌) (map-redact_pair pairs)

split_byte-cons :
    (text : Bytes)
    → (piece : Bytes) × (pieces : List Bytes) × (split_byte ampersand [] text ≡ piece ∷ pieces)
split_byte-cons text = split_byte_cons ampersand [] text

-- Place by place, a pair of the query or form whose decoded name is sensitive is its name, `=` and
-- the replacement in the redacted one, and any other pair is unchanged; the name of a pair is what
-- stands before its first `=`, or all of it. To redact the result again changes nothing.
pub redact_pairs-split_byte :
    (value : Bytes)
    → Pairwise PairInv
        (split_byte ampersand [] value)
        (split_byte ampersand [] (redact_pairs value ampersand).0)
      × ((redact_pairs (redact_pairs value ampersand).0 ampersand).0
          ≡ (redact_pairs value ampersand).0)
unfolding redact_pairs
redact_pairs-split_byte value =
    let (piece, pieces, e) = split_byte-cons value in
    let free : All (Free ampersand) (piece ∷ pieces) =
      subst (All (Free ampersand)) e (split_byte_pieces ampersand value) in
    let split : split_byte ampersand []
          (join (ampersand ∷ []) (map redact_pair (split_byte ampersand [] value)))
        ≡ map redact_pair (split_byte ampersand [] value) =
      ap (λ ps. split_byte ampersand [] (join (ampersand ∷ []) (map redact_pair ps))) e
      ∙ split_byte-join ampersand (redact_pair piece) (map redact_pair pieces)
          (map-Free (piece ∷ pieces) free)
      ∙ ap (map redact_pair) (sym e) in
    (
      subst (Pairwise PairInv (split_byte ampersand [] value)) (sym split)
          (map-Pairwise (split_byte ampersand [] value)),
      ap (λ ps. join (ampersand ∷ []) (map redact_pair ps)) split
          ∙ ap (join (ampersand ∷ [])) (map-redact_pair (split_byte ampersand [] value)),
    )
