-- ===== src/Text/Split.antt =====
-- Splitting at a byte and joining again.
use lens.Prelude.{
  length, suc, ℕ, true, false, List, [], ◌∷◌, ◌++◌, append-nil, append_assoc, Option, none, some,
  ◌==◌, All, All-append, ◌≡◌, refl, sym, ap, ◌∙◌, subst, Bool-cases, inl, inr, ==_iff,
}
use lens.Text.{Bytes, join}
use lens.Text.Words.{split_byte, split_once, position}
use mathlib.Core.Option

-- A text without a byte.
abbrev pub Free : ℕ → Bytes → Type 0
Free separator text = All (λ c. (c == separator) ≡ false) text

module _ (separator : ℕ) where
  split_byte-Free :
      (piece text : Bytes)
      → Free separator piece
      → All (Free separator) (split_byte separator piece text)
  unfolding split_byte
  split_byte-Free piece [] h = (h, tt)
  split_byte-Free piece (c ∷ cs) h = elim (Bool-cases (c == separator)) [
    | inl e ↦ rw (e, split_byte) (h, split_byte-Free [] cs tt)
    | inr e ↦
        rw (e, split_byte)
          (split_byte-Free (piece ++ c ∷ []) cs
            (All-append (λ d. (d == separator) ≡ false) piece (c ∷ []) h (e, tt)))
  ]

  pub split_byte_pieces : (text : Bytes) → All (Free separator) (split_byte separator [] text)
  split_byte_pieces text = split_byte-Free [] text tt

  split_byte-append :
      (piece text rest : Bytes)
      → Free separator text
      → split_byte separator piece (text ++ rest) ≡ split_byte separator (piece ++ text) rest
  unfolding split_byte
  split_byte-append piece [] rest h = ap (λ p. split_byte separator p rest) (sym (append-nil piece))
  split_byte-append piece (c ∷ cs) rest h =
      rw (h.0, split_byte)
        (split_byte-append (piece ++ c ∷ []) cs rest h.1
          ∙ ap (λ p. split_byte separator p rest) (append_assoc piece (c ∷ []) cs))

  split_byte-separator :
      (piece rest : Bytes)
      → split_byte separator piece (separator ∷ rest) ≡ piece ∷ split_byte separator [] rest
  unfolding split_byte
  split_byte-separator piece rest =
      let e : (separator == separator) ≡ true = (==_iff separator separator).1 refl in
      rw (e, split_byte) refl

  pub split_byte-join :
      (piece : Bytes) (pieces : List Bytes)
      → All (Free separator) (piece ∷ pieces)
      → split_byte separator [] (join (separator ∷ []) (piece ∷ pieces)) ≡ piece ∷ pieces
  unfolding join split_byte
  split_byte-join piece [] h =
      ap (split_byte separator []) (sym (append-nil piece)) ∙ split_byte-append [] piece [] h.0
  split_byte-join piece (next ∷ pieces) h =
      split_byte-append [] piece (separator ∷ join (separator ∷ []) (next ∷ pieces)) h.0
      ∙ split_byte-separator piece (join (separator ∷ []) (next ∷ pieces))
      ∙ ap (piece ∷◌) (split_byte-join next pieces h.1)

  -- What `split_once` says of the text.
  abbrev pub SplitOnce : Bytes → Option (Bytes × Bytes) → Type 0
  SplitOnce text none = Free separator text
  SplitOnce text (some (before, behind)) =
      (text ≡ before ++ separator ∷ behind) × Free separator before

  cons-SplitOnce :
      (c : ℕ) (text : Bytes) (o : Option (Bytes × Bytes))
      → (c == separator) ≡ false
      → SplitOnce text o
      → SplitOnce (c ∷ text) (Option.map (λ (p : Bytes × Bytes). (c ∷ p.0, p.1)) o)
  cons-SplitOnce c text none e h = (e, h)
  cons-SplitOnce c text (some (before, behind)) e h = (ap (c ∷◌) h.0, (e, h.1))

  pub split_once-SplitOnce : (text : Bytes) → SplitOnce text (split_once separator text)
  unfolding split_once
  split_once-SplitOnce [] = tt
  split_once-SplitOnce (c ∷ cs) = elim (Bool-cases (c == separator)) [
    | inl e ↦
        let same : split_once separator (c ∷ cs) ≡ some ([], cs) = rw (e, split_once) refl in
        subst (SplitOnce (c ∷ cs)) (sym same) (ap (◌∷ cs) ((==_iff c separator).0 e), tt)
    | inr e ↦
        let same : split_once separator (c ∷ cs)
            ≡ Option.map (λ (p : Bytes × Bytes). (c ∷ p.0, p.1)) (split_once separator cs) =
          rw (e, split_once) refl in
        subst (SplitOnce (c ∷ cs)) (sym same)
          (cons-SplitOnce c cs (split_once separator cs) e (split_once-SplitOnce cs))
  ]

  pub split_once-append :
      (before behind : Bytes)
      → Free separator before
      → split_once separator (before ++ separator ∷ behind) ≡ some (before, behind)
  unfolding split_once
  split_once-append [] behind h =
      let e : (separator == separator) ≡ true = (==_iff separator separator).1 refl in
      rw (e, split_once) refl
  split_once-append (c ∷ before) behind h =
      rw (h.0, split_once)
        (ap (Option.map (λ (p : Bytes × Bytes). (c ∷ p.0, p.1)))
          (split_once-append before behind h.1))

-- The first of a byte that the text before it has not.
pub position-Free :
    (separator : ℕ) (text rest : Bytes)
    → Free separator text
    → position separator (text ++ separator ∷ rest) ≡ some (length text)
unfolding position
position-Free separator [] rest h =
    let e : (separator == separator) ≡ true = (==_iff separator separator).1 refl in
    rw (e, position) refl
position-Free separator (c ∷ text) rest h =
    rw (h.0, position) (ap (Option.map suc) (position-Free separator text rest h.1))

-- There is a piece at least.
pub split_byte_cons :
    (separator : ℕ) (piece text : Bytes)
    → (first : Bytes) × (pieces : List Bytes) × (split_byte separator piece text ≡ first ∷ pieces)
unfolding split_byte
split_byte_cons separator piece [] = (piece, [], refl)
split_byte_cons separator piece (c ∷ cs) = elim (Bool-cases (c == separator)) [
  | inl e ↦ (piece, split_byte separator [] cs, rw (e, split_byte) refl)
  | inr e ↦
      let (first, pieces, q) = split_byte_cons separator (piece ++ c ∷ []) cs in
      (first, pieces, rw (e, split_byte) q)
]
