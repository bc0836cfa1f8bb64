-- ===== src/Replay/Kept.antt =====
-- crates/lens-replay/src/lib.rs: which headers of a capture are sent again, as a relation.
use lens.Prelude.{
  Bool, true, false, not, ◌||◌, List, [], ◌∷◌, ◌++◌, map, any, ◌≡◌, ◌↔◌, ◌⊎◌, inl, inr, refl, ap,
  subst, ◌∙◌, arith, Bool-cases,
}
use lens.Protocol.{Headers}
use lens.Replay.Packages.{Packages}
use lens.Replay.Targets.{refuse_if-ok, ok_injective}
use lens.Replay.Wire.{
  is_hop_by_hop, is_left_out, connection_tokens, replay_headers_from, replay_headers,
}
use lens.Text.{
  Bytes, str, eq_bytes, eq_bytes_iff, eq_ignore_ascii_case, starts_with, to_ascii_lowercase,
}
use lens.Text.Result.{Result-cases, ok}
use lens.Text.Words.{split_byte, trim}

-- Some element of the list has the property.
unfoldable pub Some : (Bytes → Type 0) → List Bytes → Type 0
Some P [] = ⊥
Some P (x ∷ xs) = P x ⊎ Some P xs

-- The headers that are of one connection, or that a new request has its own of.
abbrev pub of_one_connection : List Bytes
of_one_connection =
    str "connection"
    ∷ str "content-length"
    ∷ str "host"
    ∷ str "keep-alive"
    ∷ str "proxy-authenticate"
    ∷ str "proxy-authorization"
    ∷ str "proxy-connection"
    ∷ str "te"
    ∷ str "trailer"
    ∷ str "transfer-encoding"
    ∷ str "upgrade"
    ∷ []

-- The name stands between commas in a header named Connection, in any case and with any space.
unfoldable pub ConnectionNames : Headers → Bytes → Type 0
ConnectionNames [] lower = ⊥
ConnectionNames ((name, value) ∷ headers) lower =
    ((to_ascii_lowercase name ≡ str "connection")
      × Some (λ token. lower ≡ to_ascii_lowercase (trim token)) (split_byte b',' [] value))
    ⊎ ConnectionNames headers lower

-- A name, in lower case, that is not sent again.
abbrev pub Dropped : Headers → Bytes → Type 0
Dropped headers lower =
    Some (lower ≡◌) of_one_connection
    ⊎ (ConnectionNames headers lower ⊎ ((rest : Bytes) × (lower ≡ str "lens-" ++ rest)))

abbrev pub IsHeader : Packages → Bytes → Bytes → Type 0
IsHeader packages name value =
    (packages.is_header_name name ≡ true) × (packages.is_header_value value ≡ true)

-- The headers behind some of a capture, and those of them that are sent.
pub data Sent (packages : Packages) (all : Headers) : Headers → Headers → Type 0 where
  nothing : Sent packages all [] []
  dropped :
      {name value : Bytes} {headers sent : Headers}
      → Dropped all (to_ascii_lowercase name)
      → Sent packages all headers sent
      → Sent packages all ((name, value) ∷ headers) sent
  kept :
      {name value : Bytes} {headers sent : Headers}
      → ¬ Dropped all (to_ascii_lowercase name)
      → IsHeader packages name value
      → Sent packages all headers sent
      → Sent packages all ((name, value) ∷ headers) ((name, value) ∷ sent)

or_iff :
    {P Q R : Type 0} (a b c : Bool)
    → (a ≡ true) ↔ P
    → (b ≡ true) ↔ Q
    → (c ≡ true) ↔ R
    → ((a || b || c) ≡ true) ↔ (P ⊎ (Q ⊎ R))
or_iff true b c p q r = (λ _. inl (p.0 refl), λ _. refl)
or_iff false true c p q r = (λ _. inr (inl (q.0 refl)), λ _. refl)
or_iff false false true p q r = (λ _. inr (inr (r.0 refl)), λ _. refl)
or_iff false false false p q r =
    (λ h. cc h, λ h. elim h [ inl x ↦ p.1 x | inr y ↦ elim y [ inl x ↦ q.1 x | inr x ↦ r.1 x ] ])

any_iff : (x : Bytes) (xs : List Bytes) → (any (eq_bytes x) xs ≡ true) ↔ Some (x ≡◌) xs
unfolding Some
any_iff x [] = ground arith
any_iff x (y ∷ ys) = ground (arith, eq_bytes_iff x y, any_iff x ys)

any-append :
    (x : Bytes) (xs ys : List Bytes)
    → any (eq_bytes x) (xs ++ ys) ≡ (any (eq_bytes x) xs || any (eq_bytes x) ys)
any-append x [] ys = refl
any-append x (z ∷ xs) ys = ground (arith, any-append x xs ys)

any-map_iff :
    (x : Bytes) (f : Bytes → Bytes) (xs : List Bytes)
    → (any (eq_bytes x) (map f xs) ≡ true) ↔ Some (λ y. x ≡ f y) xs
unfolding Some
any-map_iff x f [] = ground arith
any-map_iff x f (y ∷ ys) = ground (arith, eq_bytes_iff x (f y), any-map_iff x f ys)

starts_with-append : (ps rest : Bytes) → starts_with (ps ++ rest) ps ≡ true
unfolding starts_with
starts_with-append [] [] = refl
starts_with-append [] (r ∷ rest) = refl
starts_with-append (p ∷ ps) rest = ground (arith, starts_with-append ps rest)

starts_with-rest :
    (text ps : Bytes) → starts_with text ps ≡ true → (rest : Bytes) × (text ≡ ps ++ rest)
unfolding starts_with
starts_with-rest text [] h = (text, refl)
starts_with-rest [] (p ∷ ps) h = cc h
starts_with-rest (t ∷ ts) (p ∷ ps) h =
    let (rest, same) = starts_with-rest ts ps (ground (arith, h)) in
    let e : t ≡ p = ground (arith, h) in (rest, cc (e, same))

is_connection_iff :
    (name : Bytes)
    → (eq_ignore_ascii_case name (str "connection") ≡ true)
      ↔ (to_ascii_lowercase name ≡ str "connection")
unfolding eq_ignore_ascii_case to_ascii_lowercase str
is_connection_iff name = eq_bytes_iff (to_ascii_lowercase name) (str "connection")

-- The tests of the code on a name, told by the relation.
connection_tokens_iff :
    (headers : Headers) (lower : Bytes)
    → (any (eq_bytes lower) (connection_tokens headers) ≡ true) ↔ ConnectionNames headers lower
unfolding connection_tokens ConnectionNames
connection_tokens_iff [] lower = ground arith
connection_tokens_iff ((name, value) ∷ headers) lower =
    let lowered = λ (token : Bytes). to_ascii_lowercase (trim token) in
    let here = any-map_iff lower lowered (split_byte b',' [] value) in
    let later = connection_tokens_iff headers lower in
    let same = is_connection_iff name in
    let split =
      any-append lower (map lowered (split_byte b',' [] value)) (connection_tokens headers) in
    ground (arith, here, later, same, split)

lens_iff :
    (lower : Bytes)
    → (starts_with lower (str "lens-") ≡ true) ↔ ((rest : Bytes) × (lower ≡ str "lens-" ++ rest))
lens_iff lower = (
  starts_with-rest lower (str "lens-"),
  λ (rest, same).
      ap (λ text. starts_with text (str "lens-")) same ∙ starts_with-append (str "lens-") rest,
)

is_left_out_iff :
    (headers : Headers) (lower : Bytes)
    → (is_left_out (connection_tokens headers) lower ≡ true) ↔ Dropped headers lower
unfolding is_left_out is_hop_by_hop
is_left_out_iff headers lower =
    or_iff (is_hop_by_hop lower) (any (eq_bytes lower) (connection_tokens headers))
      (starts_with lower (str "lens-")) (any_iff lower of_one_connection)
      (connection_tokens_iff headers lower) (lens_iff lower)

false_of_not : (b : Bool) → not b ≡ false → b ≡ true
false_of_not true h = refl
false_of_not false h = cc h

module _ (packages : Packages) (all : Headers) where
  headers-Sent :
      (headers sent : Headers)
      → replay_headers_from packages (connection_tokens all) headers ≡ ok sent
      → Sent packages all headers sent
  unfolding replay_headers_from
  headers-Sent [] sent h = subst (Sent packages all []) (ok_injective [] sent h) nothing
  headers-Sent ((name, value) ∷ headers) sent h =
      let test = is_left_out_iff all (to_ascii_lowercase name) in
      elim (Bool-cases (is_left_out (connection_tokens all) (to_ascii_lowercase name))) [
        | inl e ↦ dropped (test.0 e) (headers-Sent headers sent (rw (e, replay_headers_from) at h))
        | inr e ↦
            let (n, h1) = refuse_if-ok _ _ _ sent (rw (e, replay_headers_from) at h) in
            let (v, h2) = refuse_if-ok _ _ _ sent h1 in
            elim (Result-cases (replay_headers_from packages (connection_tokens all) headers)) [
              | inr (reason, failed) ↦ cc (rw failed at h2)
              | inl (rest, found) ↦
                  subst (Sent packages all ((name, value) ∷ headers))
                    (ok_injective ((name, value) ∷ rest) sent (rw found at h2))
                    (kept (λ d. absurd (cc (e, test.1 d))) (false_of_not _ n, false_of_not _ v)
                      (headers-Sent headers rest found))
            ]
      ]

  Sent-headers :
      {headers sent : Headers}
      → Sent packages all headers sent
      → replay_headers_from packages (connection_tokens all) headers ≡ ok sent
  unfolding replay_headers_from
  Sent-headers nothing = refl
  Sent-headers (dropped {name} d rest) =
      let e = (is_left_out_iff all (to_ascii_lowercase name)).1 d in
      rw (e, replay_headers_from) (Sent-headers rest)
  Sent-headers (kept {name} {value} d (n, v) rest) =
      elim (Bool-cases (is_left_out (connection_tokens all) (to_ascii_lowercase name))) [
        | inl e ↦ absurd (d ((is_left_out_iff all (to_ascii_lowercase name)).0 e))
        | inr e ↦ let found = Sent-headers rest in rw (e, n, v, found, replay_headers_from) refl
      ]

-- The headers of a capture become those of a request just when they are, in their order, the ones
-- whose name is neither of one connection, nor named by a Connection header of the capture, nor
-- begins with `lens-`, in any case, and each of them is a valid header.
pub replay_headers_iff :
    (packages : Packages) (headers sent : Headers)
    → (replay_headers packages headers ≡ ok sent) ↔ Sent packages headers headers sent
unfolding replay_headers
replay_headers_iff packages headers sent =
    (headers-Sent packages headers headers sent, Sent-headers packages headers)
