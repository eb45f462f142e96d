-- ===== src/Services/Debounce/Groups.antt =====
-- What is kept of what each sender said when a message is collected, passes, or a batch is released.
use invarail.Prelude.{
  ◌≡◌, refl, sym, ap, ◌∙◌, true, false, List, [], ◌∷◌, ◌++◌, map, none, some, Text, ◌==◌, eq_iff,
  lookup, assign, lookup-assign, arith, if◌then◌else◌, Bool-cases, inl, inr,
}
use mathlib.Core.List.{map-append, append_assoc, append-nil}
use invarail.Services.Debounce.{Message, key_of, delete_key, PendingText, released_text}
use invarail.Services.Debounce.Runs.{State, idle, said, flat, parts_of, joined}

-- A sender's message comes last among the sender's, another's changes nothing.
said-mine :
    (k : Text) (xs : List Message) (m : Message)
    → (key_of m == k) ≡ true
    → said k (xs ++ m ∷ []) ≡ said k xs ++ m.content ∷ []
unfolding said
said-mine k [] m h = ground (arith, h)
said-mine k (x ∷ xs) m h = ground (arith, said-mine k xs m h)

said-other :
    (k : Text) (xs : List Message) (m : Message)
    → (key_of m == k) ≡ false
    → said k (xs ++ m ∷ []) ≡ said k xs
unfolding said
said-other k [] m h = ground (arith, h)
said-other k (x ∷ xs) m h = ground (arith, said-other k xs m h)

map-joined :
    (gs : List (List Text)) (g : List Text)
    → map joined (gs ++ g ∷ []) ≡ map joined gs ++ joined g ∷ []
map-joined gs g = map-append joined gs (g ∷ [])

flat-append : (xs : List (List Text)) (g : List Text) → flat (xs ++ g ∷ []) ≡ (flat xs ++ g)
unfolding flat
flat-append [] g = append-nil g
flat-append (x ∷ xs) g = ap (λ r. x ++ r) (flat-append xs g) ∙ sym (append_assoc x (flat xs) g)

lookup-delete_key :
    {A : Type 0} (k j : Text) (m : List (Text × A))
    → lookup j (delete_key k m) ≡ (if k == j then none else lookup j m)
unfolding lookup delete_key
lookup-delete_key k j [] = ground arith
lookup-delete_key k j ((i, w) ∷ m) =
    ground (arith, eq_iff k j, eq_iff i k, eq_iff i j, lookup-delete_key k j m)

-- The texts of a sender, in the order of arrival, in groups: what was dispatched are the groups,
-- each joined, and the last of the texts still wait.
abbrev pub Grouped : Text → State → List Message → Type 0
Grouped k s came =
    (groups : List (List Text)) × (said k s.dispatched ≡ map joined groups)
    × (said k came ≡ flat groups ++ parts_of (lookup k s.pending))

pub record Kept (s : State) (came : List Message) : Type 0 where
  pub keyed : (k : Text) (p : PendingText) → lookup k s.pending ≡ some p → key_of p.msg ≡ k
  pub whole : (k : Text) → Grouped k s came

pub collected :
    (s : State) (came : List Message) (m : Message) (p : PendingText)
    → p.parts ≡ parts_of (lookup (key_of m) s.pending) ++ m.content ∷ []
    → key_of p.msg ≡ key_of m
    → Kept s came
    → Kept
        (record { pending = assign (key_of m) p s.pending; dispatched = s.dispatched })
        (came ++ m ∷ [])
collected s came m p grown same kept = record {
  keyed = λ k q h. elim (Bool-cases (key_of m == k)) [
    | inl e ↦
        ground (arith, lookup-assign (key_of m) k p s.pending, eq_iff (key_of m) k, kept.keyed k q)
    | inr e ↦ ground (arith, lookup-assign (key_of m) k p s.pending, kept.keyed k q)
  ];
  whole = λ k.
      let (groups, d, c) = kept.whole k in
      elim (Bool-cases (key_of m == k)) [
        | inl e ↦
            let e' = (eq_iff (key_of m) k).0 e in
            let there : lookup k (assign (key_of m) p s.pending) ≡ some p =
              ground (arith, lookup-assign (key_of m) k p s.pending) in
            let before : parts_of (lookup (key_of m) s.pending) ≡ parts_of (lookup k s.pending) =
              ap (λ (j : Text). parts_of (lookup j s.pending)) e' in
            (
              groups,
              d,
              said-mine k came m e
                  ∙ ap (λ l. l ++ m.content ∷ []) c
                  ∙ append_assoc (flat groups) (parts_of (lookup k s.pending)) (m.content ∷ [])
                  ∙ ap (λ l. flat groups ++ l)
                      (ap (λ l. l ++ m.content ∷ []) (sym before) ∙ sym grown)
                  ∙ ap (λ o. flat groups ++ parts_of o) (sym there),
            )
        | inr e ↦ (
          groups,
          d,
          ground (arith, said-other k came m e, lookup-assign (key_of m) k p s.pending),
        )
      ];
}

pub passed :
    (s : State) (came : List Message) (m : Message)
    → lookup (key_of m) s.pending ≡ none
    → Kept s came
    → Kept (record { pending = s.pending; dispatched = s.dispatched ++ m ∷ [] }) (came ++ m ∷ [])
passed s came m none' kept = record {
  keyed = kept.keyed;
  whole = λ k.
      let (groups, d, c) = kept.whole k in
      elim (Bool-cases (key_of m == k)) [
        | inl e ↦
            let empty : lookup k s.pending ≡ none =
              ap (λ (j : Text). lookup j s.pending) (sym ((eq_iff (key_of m) k).0 e)) ∙ none' in
            (
              groups ++ (m.content ∷ []) ∷ [],
              said-mine k s.dispatched m e
                  ∙ ap (λ l. l ++ m.content ∷ []) d
                  ∙ sym (map-joined groups (m.content ∷ [])),
              said-mine k came m e
                  ∙ ap (λ l. l ++ m.content ∷ [])
                      (c ∙ ap (λ o. flat groups ++ parts_of o) empty ∙ append-nil (flat groups))
                  ∙ sym (flat-append groups (m.content ∷ []))
                  ∙ sym (append-nil (flat (groups ++ (m.content ∷ []) ∷ [])))
                  ∙ ap (λ o. flat (groups ++ (m.content ∷ []) ∷ []) ++ parts_of o) (sym empty),
            )
        | inr e ↦ (groups, said-other k s.dispatched m e ∙ d, said-other k came m e ∙ c)
      ];
}

pub released :
    (s : State) (came : List Message) (key : Text) (p : PendingText)
    → lookup key s.pending ≡ some p
    → Kept s came
    → Kept
        (record {
          pending = delete_key key s.pending;
          dispatched = s.dispatched ++ released_text p ∷ [];
        })
        came
released s came key p found kept = record {
  keyed = λ k q h. ground (arith, lookup-delete_key key k s.pending, kept.keyed k q);
  whole = λ k.
      let (groups, d, c) = kept.whole k in
      let own = kept.keyed key p found in
      elim (Bool-cases (key == k)) [
        | inl e ↦
            let here : lookup k s.pending ≡ some p =
              ap (λ (j : Text). lookup j s.pending) (sym ((eq_iff key k).0 e)) ∙ found in
            let gone : lookup k (delete_key key s.pending) ≡ none =
              ground (arith, lookup-delete_key key k s.pending) in
            (
              groups ++ p.parts ∷ [],
              said-mine k s.dispatched (released_text p) (ap (λ (j : Text). j == k) own ∙ e)
                  ∙ ap (λ l. l ++ joined p.parts ∷ []) d
                  ∙ sym (map-joined groups p.parts),
              c
                  ∙ ap (λ o. flat groups ++ parts_of o) here
                  ∙ sym (flat-append groups p.parts)
                  ∙ sym (append-nil (flat (groups ++ p.parts ∷ [])))
                  ∙ ap (λ o. flat (groups ++ p.parts ∷ []) ++ parts_of o) (sym gone),
            )
        | inr e ↦ (
          groups,
          said-other k s.dispatched (released_text p) (ap (λ (j : Text). j == k) own ∙ e) ∙ d,
          ground (arith, c, lookup-delete_key key k s.pending),
        )
      ];
}

pub idle-Kept : Kept idle []
unfolding lookup said flat
idle-Kept = record { keyed = λ k p h. ground arith; whole = λ k. ([], refl, refl) }
