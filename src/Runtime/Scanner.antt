-- ===== src/Runtime/Scanner.antt =====
-- app/runtime/tool_call_scanner.py: the text of a reply that is held back as a tool call. A text is a
-- list of code points. Which characters `lstrip` drops and which calls a format finds in the held
-- text are parameters.
use matricxon.Base.{
  ℕ, zero, suc, ◌-◌, List, [], ◌∷◌, ◌++◌, Option, none, some, Bool, true, false, length, take, drop,
  min, eqb, if◌then◌else◌, ◌&&◌, ◌||◌,
}

abbrev pub Text : Type 0
Text = List ℕ

pub record Scanner : Type 0 where
  pub start_marker : Option Text
  pub pending : Text
  pub held : Text
  pub capturing : Bool
  pub undecided : Bool

-- `ToolCallScanner.__init__`
unfoldable pub new_scanner : Option Text → Scanner
new_scanner marker = record {
  start_marker = marker;
  pending = [];
  held = [];
  capturing = false;
  undecided = elim marker [ none ↦ true | some m ↦ false ];
}

-- `text.startswith(prefix)`
abbrev pub starts_with : Text → Text → Bool
starts_with [] text = true
starts_with (p ∷ prefix) [] = false
starts_with (p ∷ prefix) (c ∷ text) = eqb p c && starts_with prefix text

-- The text before the first place of the marker, and the text from it on.
unfoldable pub split_at_marker : Text → Text → Option (Text × Text)
split_at_marker marker [] = if starts_with marker [] then some ([], []) else none
split_at_marker marker (c ∷ text) =
    let later : Option (Text × Text) = elim (split_at_marker marker text) [
      | none ↦ none
      | some (before, from) ↦ some (c ∷ before, from)
    ] in
    if starts_with marker (c ∷ text) then some ([], c ∷ text) else later

-- The loop of `_release_all_but_marker_prefix`: the longest end of the text, of so many characters at
-- most, that the marker begins with.
abbrev pub marker_prefix : ℕ → Text → Text → ℕ
marker_prefix zero marker text = 0
marker_prefix (suc size) marker text =
    let shorter = marker_prefix size marker text in
    if starts_with (drop (length text - suc size) text) marker then suc size else shorter

-- `_release_all_but_marker_prefix`
unfoldable pub release_all_but_marker_prefix : Text → Scanner → Scanner × Text
release_all_but_marker_prefix marker s =
    let kept = marker_prefix (min (length marker - 1) (length s.pending)) marker s.pending in
    let cut = length s.pending - kept in
    (record s { pending = drop cut s.pending }, take cut s.pending)

-- `stripped[0] in "{["`
abbrev pub opens_json : ℕ → Bool
opens_json c = eqb c 123 || eqb c 91

module _ (is_space : ℕ → Bool) where
  -- `lstrip`
  abbrev pub lstrip : Text → Text
  lstrip [] = []
  lstrip (c ∷ text) = let rest = lstrip text in if is_space c then rest else c ∷ text

  -- The end of `_feed_bare_json`.
  abbrev pub hold_or_show : Scanner → Scanner × Text
  hold_or_show s =
      if s.capturing
      then (record s { held = s.pending; pending = [] }, [])
      else (record s { pending = [] }, s.pending)

  -- `_feed_bare_json`
  unfoldable pub feed_bare_json : Scanner → Scanner × Text
  feed_bare_json s =
      if s.undecided
      then (elim (lstrip s.pending) [
        | [] ↦ (s, [])
        | c ∷ rest ↦ hold_or_show (record s { undecided = false; capturing = opens_json c })
      ])
      else hold_or_show s

  -- The part of `feed` behind the pending text.
  abbrev pub look : Scanner → Scanner × Text
  unfolding feed_bare_json split_at_marker release_all_but_marker_prefix
  look s = elim s.start_marker [
    | none ↦ feed_bare_json s
    | some marker ↦ elim (split_at_marker marker s.pending) [
      | some (before, from) ↦ (record s { held = from; pending = []; capturing = true }, before)
      | none ↦ release_all_but_marker_prefix marker s
    ]
  ]

  -- `feed`
  unfoldable pub feed : Text → Scanner → Scanner × Text
  unfolding feed_bare_json split_at_marker release_all_but_marker_prefix
  feed text s =
      if s.capturing
      then (record s { held = s.held ++ text }, [])
      else look (record s { pending = s.pending ++ text })

  -- The chunks of a reply, one after the other, and all that they show.
  unfoldable pub feed_all : List Text → Scanner → Scanner × Text
  unfolding feed
  feed_all [] s = (s, [])
  feed_all (text ∷ more) s =
      let one = feed text s in let rest = feed_all more one.0 in (rest.0, one.1 ++ rest.1)

  -- `finish`, without the ids that the calls get.
  unfoldable pub finish : {C : Type 0} → (Text → List C) → Scanner → Scanner × Text × List C
  finish parse s =
      if s.capturing
      then (elim (parse s.held) [ [] ↦ (s, s.held, []) | call ∷ calls ↦ (s, [], call ∷ calls) ])
      else (record s { pending = [] }, s.pending, [])
