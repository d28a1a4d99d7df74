-- ===== src/Runtime/Whole.antt =====
-- What `feed` and `finish` (app/runtime/tool_call_scanner.py) show and hold back of a reply.
use mathlib.Core.List.{append_assoc}
use matricxon.Base.{
  ℕ, ◌-◌, ◌≡◌, List, [], ◌∷◌, ◌++◌, Option, none, some, Bool, true, false, length, take, drop, min,
  if◌then◌else◌, refl, ap, sym, ◌∙◌, inl, inr, Bool-cases, Option-cases, of_some,
}
use matricxon.Base.Slices.{take-drop}
use matricxon.Runtime.Scanner.{
  Text, Scanner, new_scanner, starts_with, split_at_marker, marker_prefix,
  release_all_but_marker_prefix, lstrip, hold_or_show, feed_bare_json, opens_json, look, feed,
  feed_all, finish,
}

append_nil : (xs : Text) → xs ++ [] ≡ xs
append_nil [] = refl
append_nil (x ∷ xs) = ap (λ zs. x ∷ zs) (append_nil xs)

-- Either all that is kept is pending, or all of it is held.
abbrev pub IsHeld : Scanner → Type 0
IsHeld s = (s.capturing ≡ true → s.pending ≡ []) × (s.capturing ≡ false → s.held ≡ [])

-- The text that is not shown yet.
abbrev pub kept : Scanner → Text
kept s = s.pending ++ s.held

-- A step that shows some of a text and keeps the rest, in order.
abbrev Shows : Text → Scanner × Text → Type 0
Shows text (s, visible) = IsHeld s × (visible ++ kept s ≡ text)

split_at_marker-append :
    (marker text before from : Text)
    → split_at_marker marker text ≡ some (before, from)
    → before ++ from ≡ text
unfolding split_at_marker
split_at_marker-append marker [] before from h = elim (Bool-cases (starts_with marker [])) [
  | inl t ↦ ap (λ (p : Text × Text). p.0 ++ p.1) (sym (of_some (rw t at h)))
  | inr f ↦ absurd (cc (rw f at h))
]
split_at_marker-append marker (c ∷ text) before from h =
    elim (Bool-cases (starts_with marker (c ∷ text))) [
      | inl t ↦ ap (λ (p : Text × Text). p.0 ++ p.1) (sym (of_some (rw t at h)))
      | inr f ↦ elim (Option-cases (split_at_marker marker text)) [
        | inl e ↦ absurd (cc (rw (f, e, split_at_marker) at h))
        | inr ((b, g), e) ↦
            ap (λ (p : Text × Text). p.0 ++ p.1) (sym (of_some (rw (f, e, split_at_marker) at h)))
            ∙ ap (λ zs. c ∷ zs) (split_at_marker-append marker text b g e)
      ]
    ]

hold_or_show-Shows :
    (is_space : ℕ → Bool) (s : Scanner) → s.held ≡ [] → Shows s.pending (hold_or_show is_space s)
hold_or_show-Shows is_space s none_held = elim (Bool-cases s.capturing) [
  | inl t ↦ rw t ((λ e. refl, λ e. absurd (cc)), refl)
  | inr f ↦
      rw f
        ((λ e. refl, λ e. none_held), ap (λ zs. s.pending ++ zs) none_held ∙ append_nil s.pending)
]

feed_bare_json-Shows :
    (is_space : ℕ → Bool) (s : Scanner)
    → s.capturing ≡ false
    → s.held ≡ []
    → Shows s.pending (feed_bare_json is_space s)
unfolding feed_bare_json
feed_bare_json-Shows is_space s calm none_held = branch s.undecided
  where
    decided :
        (stripped : Text)
        → Shows s.pending (elim stripped as (λ _. Scanner × Text) [
          | [] ↦ (s, [])
          | c ∷ rest ↦
              hold_or_show is_space (record s { undecided = false; capturing = opens_json c })
        ])
    decided [] = (
      (λ e. absurd (cc), λ e. none_held),
      ap (λ zs. s.pending ++ zs) none_held ∙ append_nil s.pending,
    )
    decided (c ∷ rest) =
        hold_or_show-Shows is_space (record s { undecided = false; capturing = opens_json c })
          none_held

    branch :
        (u : Bool)
        → Shows s.pending (
            if u
            then (elim (lstrip is_space s.pending) as (λ _. Scanner × Text) [
              | [] ↦ (s, [])
              | c ∷ rest ↦
                  hold_or_show is_space (record s { undecided = false; capturing = opens_json c })
            ])
            else hold_or_show is_space s)
    branch true = decided (lstrip is_space s.pending)
    branch false = hold_or_show-Shows is_space s none_held

look-Shows :
    (is_space : ℕ → Bool) (s : Scanner)
    → s.capturing ≡ false
    → s.held ≡ []
    → Shows s.pending (look is_space s)
unfolding release_all_but_marker_prefix split_at_marker feed_bare_json
look-Shows is_space s calm none_held = marked s.start_marker
  where
    found :
        (marker : Text) (o : Option (Text × Text))
        → split_at_marker marker s.pending ≡ o
        → Shows s.pending (elim o as (λ _. Scanner × Text) [
          | some (before, from) ↦ (record s { held = from; pending = []; capturing = true }, before)
          | none ↦ release_all_but_marker_prefix marker s
        ])
    found marker none e =
        let cut =
          length s.pending
          - marker_prefix (min (length marker - 1) (length s.pending)) marker s.pending in
        (
          (λ t. absurd (cc), λ f. none_held),
          ap (λ zs. take cut s.pending ++ (drop cut s.pending ++ zs)) none_held
              ∙ ap (λ zs. take cut s.pending ++ zs) (append_nil (drop cut s.pending))
              ∙ take-drop cut s.pending,
        )
    found marker (some (before, from)) e =
        ((λ t. refl, λ f. absurd (cc)), split_at_marker-append marker s.pending before from e)

    marked :
        (m : Option Text)
        → Shows s.pending (elim m as (λ _. Scanner × Text) [
          | none ↦ feed_bare_json is_space s
          | some marker ↦ elim (split_at_marker marker s.pending) [
            | some (before, from) ↦
                (record s { held = from; pending = []; capturing = true }, before)
            | none ↦ release_all_but_marker_prefix marker s
          ]
        ])
    marked none = feed_bare_json-Shows is_space s calm none_held
    marked (some marker) = found marker (split_at_marker marker s.pending) refl

feed-Shows :
    (is_space : ℕ → Bool) (text : Text) (s : Scanner)
    → IsHeld s
    → Shows (kept s ++ text) (feed is_space text s)
unfolding feed
feed-Shows is_space text s held = elim (Bool-cases s.capturing) [
  | inl t ↦ rw t ((λ e. held.0 t, λ e. absurd (cc)), sym (append_assoc s.pending s.held text))
  | inr f ↦
      let none_held = held.1 f in
      let looked = look-Shows is_space (record s { pending = s.pending ++ text }) f none_held in
      rw f (
        looked.0,
        looked.1
            ∙ ap (λ zs. zs ++ text)
                (sym (ap (λ zs. s.pending ++ zs) none_held ∙ append_nil s.pending)),
      )
]

abbrev pub concat : List Text → Text
concat [] = []
concat (text ∷ more) = text ++ concat more

feed_all-Shows :
    (is_space : ℕ → Bool) (texts : List Text) (s : Scanner)
    → IsHeld s
    → Shows (kept s ++ concat texts) (feed_all is_space texts s)
unfolding feed_all
feed_all-Shows is_space [] s held = (held, sym (append_nil (kept s)))
feed_all-Shows is_space (text ∷ more) s held =
    let one = feed-Shows is_space text s held in
    let rest = feed_all-Shows is_space more (feed is_space text s).0 one.0 in
    (
      rest.0,
      append_assoc (feed is_space text s).1 (feed_all is_space more (feed is_space text s).0).1
            (kept (feed_all is_space more (feed is_space text s).0).0)
          ∙ ap (λ zs. (feed is_space text s).1 ++ zs) rest.1
          ∙ sym
              (append_assoc (feed is_space text s).1 (kept (feed is_space text s).0) (concat more))
          ∙ ap (λ zs. zs ++ concat more) one.1
          ∙ append_assoc (kept s) text (concat more),
    )

finish-kept :
    {C : Type 0} (is_space : ℕ → Bool) (parse : Text → List C) (s : Scanner)
    → IsHeld s
    → (finish is_space parse s).2 ≡ []
    → (finish is_space parse s).1 ≡ kept s
unfolding finish
finish-kept {C = C} is_space parse s held none_found = elim (Bool-cases s.capturing) [
  | inl t ↦ rw (t, finish) (called (parse s.held) t (rw (t, finish) at none_found))
  | inr f ↦ rw (f, finish) (sym (ap (λ zs. s.pending ++ zs) (held.1 f) ∙ append_nil s.pending))
]
  where
    called :
        (calls : List C)
        → s.capturing ≡ true
        → (elim calls as (λ _. Scanner × Text × List C) [
          | [] ↦ (s, s.held, [])
          | c ∷ cs ↦ (s, [], c ∷ cs)
        ]).2
          ≡ []
        → (elim calls as (λ _. Scanner × Text × List C) [
          | [] ↦ (s, s.held, [])
          | c ∷ cs ↦ (s, [], c ∷ cs)
        ]).1
          ≡ kept s
    called [] t h = sym (ap (λ zs. zs ++ s.held) (held.0 t))
    called (c ∷ cs) t h = absurd (cc)

-- However a reply is cut into chunks, what was shown so far followed by what is kept is the whole
-- text; and when the reply ends without a call, all of it is shown.
pub feed_all-finish :
    {C : Type 0} (is_space : ℕ → Bool) (marker : Option Text) (parse : Text → List C)
    (texts : List Text)
    → let run = feed_all is_space texts (new_scanner marker) in
      let end = finish is_space parse run.0 in
      (run.1 ++ kept run.0 ≡ concat texts) × (end.2 ≡ [] → run.1 ++ end.1 ≡ concat texts)
unfolding finish new_scanner
feed_all-finish is_space marker parse texts = (shown.1, ended)
  where
    run : Scanner × Text
    run = feed_all is_space texts (new_scanner marker)

    shown : Shows (concat texts) run
    shown = feed_all-Shows is_space texts (new_scanner marker) (λ e. refl, λ e. refl)

    ended :
        (finish is_space parse run.0).2 ≡ []
        → run.1 ++ (finish is_space parse run.0).1 ≡ concat texts
    ended none_found =
        ap (λ zs. run.1 ++ zs) (finish-kept is_space parse run.0 shown.0 none_found) ∙ shown.1
