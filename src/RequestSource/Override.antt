-- ===== src/RequestSource/Override.antt =====
-- Which value a header has in the request that is made of a response
-- (ProtoRequestHelper::messageToRequest()).

use sortie.RequestSource.{
  message_headers, length_text, override_headers, override_field, Specifier, message_to_request,
  HeaderMaps,
}
use sortie.Prelude.{
  same_bytes_refl, same_bytes, ℕ, ◌≡◌, refl, ap, ◌∙◌, inl, inr, Bool, true, false, Option, none,
  some, List, [], ◌∷◌, if◌then◌else◌, Bool-cases,
}

module _ (h : HeaderMaps) where
  -- Whether two names are of one header.
  abbrev pub names : List ℕ → List ℕ → Bool
  names k name = same_bytes (h.kept_as k) (h.kept_as name)

  -- The documented behaviour of a header map, read through the values that it has of a name. Of
  -- addCopy() it is what a map does that has no header of the name: with one of its predefined
  -- headers there, it appends to the value instead.
  pub record Lawful : Type 0 where
    pub values : h.HeaderMap → List ℕ → List (List ℕ)
    pub values-remove :
        (name : List ℕ) (m : h.HeaderMap) (k : List ℕ)
        → values (h.remove name m) k ≡ (if names k name then [] else values m k)
    pub values-add_copy :
        (name value : List ℕ) (m : h.HeaderMap) (k : List ℕ)
        → values m name ≡ []
        → values (h.add_copy name value m) k ≡ (if names k name then value ∷ [] else values m k)
    pub values-set :
        (name value : List ℕ) (m : h.HeaderMap) (k : List ℕ)
        → values (h.set name value m) k ≡ (if names k name then value ∷ [] else values m k)

abbrev pub or_else : Option (List ℕ) → Option (List ℕ) → Option (List ℕ)
or_else (some value) other = some value
or_else none other = other

abbrev pub only_for : Bool → Option (List ℕ) → Option (List ℕ)
only_for true value = value
only_for false value = none

abbrev pub value_or : List (List ℕ) → Option (List ℕ) → List (List ℕ)
value_or old none = old
value_or old (some value) = value ∷ []

module _ (h : HeaderMaps) where
  -- The last value that a list of headers gives a name.
  abbrev pub last_of : List ℕ → List (List ℕ × List ℕ) → Option (List ℕ)
  last_of k [] = none
  last_of k ((key, value) ∷ rest) =
      or_else (last_of k rest) (only_for (names h k (h.lower_case key)) (some value))

  -- What a message says of a name: its own fields before its headers.
  abbrev pub chosen : List ℕ → Specifier → Option (List ℕ)
  chosen k s = or_else (only_for (names h k h.name_method) s.method) (
      or_else (only_for (names h k h.name_path) s.path) (
        or_else (only_for (names h k h.name_host) s.authority) (
          or_else (only_for (names h k h.name_content_length) (length_text h s.content_length))
            (last_of k (message_headers h s)))))

  module _ (law : Lawful h) (k : List ℕ) where
    value_or-or_else :
        (old : List (List ℕ)) (x y : Option (List ℕ))
        → value_or (value_or old y) x ≡ value_or old (or_else x y)
    value_or-or_else old none y = refl
    value_or-or_else old (some value) y = refl

    field_wins :
        (name : List ℕ) (field : Option (List ℕ)) (m : h.HeaderMap)
        → law.values (override_field h name field m) k
          ≡ value_or (law.values m k) (only_for (names h k name) field)
    unfolding override_field
    field_wins name none m =
        elim (names h k name)
          as (λ b. law.values m k ≡ value_or (law.values m k) (only_for b none)) [
            | true ↦ refl
            | false ↦ refl
          ]
    field_wins name (some value) m =
        law.values-set name value (h.remove name m) k ∙ elim (Bool-cases (names h k name)) [
          | inl same ↦ rw (same) refl
          | inr other ↦ rw (other) (law.values-remove name m k ∙ (rw (other) refl))
        ]

    header_wins :
        (key value : List ℕ) (m : h.HeaderMap)
        → law.values (h.add_copy (h.lower_case key) value (h.remove (h.lower_case key) m)) k
          ≡ value_or (law.values m k) (only_for (names h k (h.lower_case key)) (some value))
    header_wins key value m =
        let name = h.lower_case key in
        let removed = law.values-remove name m k in
        let gone : law.values (h.remove name m) name ≡ [] =
          law.values-remove name m name ∙ (rw (same_bytes_refl (h.kept_as name)) refl) in
        law.values-add_copy name value (h.remove name m) k gone
        ∙ elim (Bool-cases (names h k name)) [
          | inl same ↦ rw (same) refl
          | inr other ↦ rw (other) (removed ∙ (rw (other) refl))
        ]

    last_wins :
        (headers : List (List ℕ × List ℕ)) (m : h.HeaderMap)
        → law.values (override_headers h headers m) k
          ≡ value_or (law.values m k) (last_of k headers)
    unfolding override_headers
    last_wins [] m = refl
    last_wins ((key, value) ∷ rest) m =
        last_wins rest _
        ∙ ap (λ old. value_or old (last_of k rest)) (header_wins key value m)
        ∙ value_or-or_else (law.values m k) (last_of k rest) _

-- In the request made of a response, a header has the one value that the response chooses for it:
-- its method, path, authority or content length where it has one and the name is theirs, else the
-- last value that its headers give; a header of which the response says nothing has the values
-- that it has in the base. Two names are of one header if the map keeps them under one name.
-- Removing, adding where there is none and setting are taken to behave as documented.
pub message_to_request-chosen :
    (h : HeaderMaps) (law : Lawful h) (base : h.HeaderMap) (s : Specifier) (k : List ℕ)
    → (law.values (message_to_request h base (some s)) k
        ≡ value_or (law.values base k) (chosen h k s))
      × (message_to_request h base none ≡ base)
unfolding message_to_request
message_to_request-chosen h law base s k =
    let old = law.values base k in
    let join = value_or-or_else h law k in
    let a = override_headers h (message_headers h s) base in
    let b = override_field h h.name_content_length (length_text h s.content_length) a in
    let c = override_field h h.name_host s.authority b in
    let d = override_field h h.name_path s.path c in
    (
      field_wins h law k h.name_method s.method d
          ∙ ap (λ o. value_or o (only_for (names h k h.name_method) s.method))
              (field_wins h law k h.name_path s.path c
                ∙ ap (λ o. value_or o (only_for (names h k h.name_path) s.path))
                    (field_wins h law k h.name_host s.authority b
                      ∙ ap (λ o. value_or o (only_for (names h k h.name_host) s.authority))
                          (field_wins h law k h.name_content_length (length_text h s.content_length)
                              a
                            ∙ ap
                                (λ o. value_or o (
                                  only_for (names h k h.name_content_length)
                                    (length_text h s.content_length)))
                                (last_wins h law k (message_headers h s) base)
                            ∙ join old _ _)
                      ∙ join old _ _)
                ∙ join old _ _)
          ∙ join old _ _,
      refl,
    )
