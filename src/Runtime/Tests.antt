-- ===== src/Runtime/Tests.antt =====
-- Runs of app/runtime at concrete inputs: a model of one layer whose cell at a position is the sum of
-- the tokens up to it, and which has no recurrent layer.
use matricxon.Base.{
  eqb, drop, ◌++◌, ℕ, zero, suc, ◌+◌, ◌≤◌, ◌<◌, ◌≡◌, ◌⊎◌, List, [], ◌∷◌, true, false, none, some,
  In, inl, inr, refl, arith, ap, take, map,
}
use matricxon.Runtime.Scanner.{Scanner, new_scanner, feed_all, finish}
use matricxon.Runtime.Whole.{kept, feed_all-finish}
use matricxon.Runtime.Busy.{IsPool}
use matricxon.Runtime.Undisturbed.{Undisturbed, acquire-Undisturbed}
use matricxon.Runtime.Dropped.{held-drop_range, without_gap}
use matricxon.Runtime.Slot.{is_hybrid, find_gap, search_gap, Cache, plain, CacheSlot, match_prompt}
use matricxon.Runtime.Gap.{find_gap_lem}
use matricxon.Runtime.Held.{length-replicate, load-export}
use matricxon.Runtime.KvCache.{
  replicate, KvCache, held, load, export, drop_range, zip_with, new_cache,
}
use matricxon.Runtime.Sound.{Reading, Holds, IsSound, Reachable}
use matricxon.Runtime.Match.{match_prompt_lem}
use matricxon.Runtime.Pool.{PromptCache, evict}
use matricxon.Runtime.Acquire.{acquire}
use matricxon.Runtime.Serving.{Granted, acquire-Granted}
use matricxon.Runtime.Eviction.{IsDone, OneCacheEach, evict-IsDone, evict_spared, evict-Kept}

abbrev sums : ℕ → List ℕ → List ℕ
sums total [] = []
sums total (t ∷ tokens) = (total + t) ∷ sums (total + t) tokens

take-sums :
    (n total : ℕ) (tokens : List ℕ) → sums total (take n tokens) ≡ take n (sums total tokens)
take-sums zero total tokens = refl
take-sums (suc n) total [] = refl
take-sums (suc n) total (t ∷ tokens) =
    ap (λ more. (total + t) ∷ more) (take-sums n (total + t) tokens)

abbrev model : Reading ℕ ℕ
model = record {
  cells = λ tokens. sums 0 tokens ∷ [];
  conv = λ tokens. [];
  ssm = λ tokens. [];
  cells_take = λ n tokens le. ap (λ layer. layer ∷ []) (take-sums n 0 tokens);
}

-- A cache with room for eight positions that read three tokens.
abbrev cache_three : KvCache ℕ
cache_three = record {
  buffers = (5 ∷ 11 ∷ 18 ∷ 0 ∷ 0 ∷ 0 ∷ 0 ∷ 0 ∷ []) ∷ [];
  max_seq_len = 8;
  committed = 3;
}

abbrev slot_three : CacheSlot ℕ ℕ
slot_three = record {
  id = 0;
  cache = plain cache_three;
  num_ctx = 8;
  dtype = "float32";
  token_ids = 5 ∷ 6 ∷ 7 ∷ [];
  snapshots = [];
  last_used = 1;
  prompt_len = 2;
  in_use = false;
  tag = "chat";
}

abbrev slot_busy : CacheSlot ℕ ℕ
slot_busy = record slot_three { id = 1; in_use = true; last_used = 2 }

abbrev pool_two : PromptCache ℕ ℕ
pool_two = record {
  max_slots = 1;
  budget_bytes = 100;
  has_tier = true;
  context_shift = false;
  slots = slot_three ∷ slot_busy ∷ [];
  tick = 2;
  next_id = 2;
  spilled = [];
}

abbrev no_bytes : {A : Type 0} → A → ℕ
no_bytes a = 0

slot_three-IsSound : IsSound model slot_three
slot_three-IsSound = record {
  content = (refl, refl, refl, (omega arith, (refl, tt)));
  snapshots = tt;
  bare = λ e. refl;
}

slot_busy-IsSound : IsSound model slot_busy
slot_busy-IsSound = record {
  content = (refl, refl, refl, (omega arith, (refl, tt)));
  snapshots = tt;
  bare = λ e. refl;
}

load-export_example :
    (saved : List (List ℕ)) × (export 2 cache_three ≡ some saved)
    × (e : KvCache ℕ) × (load saved (new_cache 0 1 4) ≡ some e)
    × (held e ≡ map (take 2) (held cache_three))
    × (e.committed ≡ 2)
unfolding new_cache
load-export_example =
    load-export 2 cache_three (new_cache 0 1 4) (omega arith, (refl, tt)) (omega arith) refl
      (omega arith) (omega arith)

abbrev gap_closed : KvCache ℕ
gap_closed = record {
  buffers = (5 ∷ 19 ∷ 18 ∷ 0 ∷ 0 ∷ 0 ∷ 0 ∷ 0 ∷ []) ∷ [];
  max_seq_len = 8;
  committed = 2;
}

held-drop_range_example :
    (held gap_closed ≡ zip_with (without_gap ◌+◌ 1 1) (1 ∷ []) (held cache_three))
    × (gap_closed.committed + 1 ≡ 3)
unfolding drop_range
held-drop_range_example =
    held-drop_range ◌+◌ 1 1 (1 ∷ []) cache_three gap_closed (omega arith, (refl, tt)) refl

abbrev prompt_two : List ℕ
prompt_two = 5 ∷ 6 ∷ []

abbrev matched : ℕ × ℕ
matched = match_prompt slot_three prompt_two

match_prompt_lem_example :
    (matched.1 ≤ matched.0)
    × (matched.0 ≤ 1)
    × (matched.1 ≤ 3)
    × (take matched.0 slot_three.token_ids ≡ take matched.0 prompt_two)
    × (take matched.1 slot_three.token_ids ≡ take matched.1 prompt_two)
    × (0 < matched.1 → Reachable matched.1 slot_three.cache slot_three.snapshots)
match_prompt_lem_example = match_prompt_lem slot_three prompt_two

abbrev fresh_cache : ℕ → Cache ℕ ℕ
fresh_cache n = plain (record { buffers = zeros n ∷ []; max_seq_len = n; committed = 0 })
  where
    zeros : ℕ → List ℕ
    zeros n = replicate n 0

fresh_cache-Holds : (n : ℕ) → Holds model (fresh_cache n) [] n
fresh_cache-Holds n = (refl, refl, refl, (omega arith, (length-replicate n 0, tt)))

acquire-Granted_example : Granted model 0 no_bytes no_bytes (5 ∷ 6 ∷ 9 ∷ []) (
    acquire 0 no_bytes no_bytes
      (λ (r n : ℕ). n + r)
      (λ n. none)
      fresh_cache
      (λ n. none)
      (5 ∷ 6 ∷ 9 ∷ [])
      8
      "float32"
      "chat"
      pool_two)
acquire-Granted_example =
    acquire-Granted model 0 no_bytes no_bytes fresh_cache fresh_cache-Holds (λ (r n : ℕ). n + r)
      (λ n. none) (λ n. none) (5 ∷ 6 ∷ 9 ∷ []) 8 "float32" "chat" pool_two
      (slot_three-IsSound, (slot_busy-IsSound, tt)) (λ n slot e. absurd (cc)) refl

one_each : OneCacheEach pool_two.slots
one_each s t (inl p) (inl q) e = cc
one_each s t (inl p) (inr (inl q)) e =
    absurd
      (omega (arith, e, ap (λ (y : CacheSlot ℕ ℕ). y.id) p, ap (λ (y : CacheSlot ℕ ℕ). y.id) q))
one_each s t (inr (inl p)) (inl q) e =
    absurd
      (omega (arith, e, ap (λ (y : CacheSlot ℕ ℕ). y.id) p, ap (λ (y : CacheSlot ℕ ℕ). y.id) q))
one_each s t (inr (inl p)) (inr (inl q)) e = cc
one_each s t (inr (inr p)) m e = elim p [ ]
one_each s t (inl p) (inr (inr q)) e = elim q [ ]
one_each s t (inr (inl p)) (inr (inr q)) e = elim q [ ]

evict-IsDone_example : IsDone no_bytes no_bytes none (evict no_bytes no_bytes 2 none pool_two)
evict-IsDone_example = evict-IsDone no_bytes no_bytes 2 none pool_two (omega arith)

evict_spared_example : In slot_busy (evict no_bytes no_bytes 2 none pool_two).slots
evict_spared_example =
    evict_spared no_bytes no_bytes 2 none pool_two slot_busy one_each (inr (inl refl)) (inl refl)

evict-Kept_example :
    In slot_three (evict no_bytes no_bytes 2 none pool_two).slots
    ⊎ In slot_three (evict no_bytes no_bytes 2 none pool_two).spilled
evict-Kept_example =
    evict-Kept no_bytes no_bytes 2 none pool_two slot_three refl one_each (inl (inl refl))

abbrev run_32 : List ℕ
run_32 = replicate 32 9

abbrev slot_trimmed : CacheSlot ℕ ℕ
slot_trimmed = record slot_three { token_ids = 1 ∷ 2 ∷ run_32 }

find_gap_lem_example :
    (is_hybrid slot_trimmed.cache ≡ false)
    × (0 < 1)
    × (0 < 1)
    × (32 ≤ 32)
    × (take 33 (take 1 slot_trimmed.token_ids ++ drop 2 slot_trimmed.token_ids)
        ≡ take 33 (1 ∷ run_32))
unfolding find_gap search_gap
find_gap_lem_example = find_gap_lem slot_trimmed (1 ∷ run_32) 1 1 32 refl

pool_two-IsPool : IsPool pool_two
pool_two-IsPool = record { one = one_each; old = below; room = omega arith }
  where
    below : (s : CacheSlot ℕ ℕ) → In s pool_two.slots → s.id < 2
    below s (inl p) = omega (arith, ap (λ (y : CacheSlot ℕ ℕ). y.id) p)
    below s (inr (inl p)) = omega (arith, ap (λ (y : CacheSlot ℕ ℕ). y.id) p)
    below s (inr (inr p)) = elim p [ ]

acquire-Undisturbed_example : Undisturbed slot_busy (
    acquire 0 no_bytes no_bytes
      (λ (r n : ℕ). n + r)
      (λ n. none)
      fresh_cache
      (λ n. none)
      (5 ∷ 6 ∷ 9 ∷ [])
      8
      "float32"
      "chat"
      pool_two)
acquire-Undisturbed_example =
    acquire-Undisturbed 0 no_bytes no_bytes (λ (r n : ℕ). n + r) (λ n. none) fresh_cache (λ n. none)
      (5 ∷ 6 ∷ 9 ∷ []) 8 "float32" "chat" pool_two slot_busy pool_two-IsPool refl (inr (inl refl))
      refl

-- A reply in two chunks that may begin the marker at the end of the first.
abbrev chunks_two : List (List ℕ)
chunks_two = (65 ∷ 60 ∷ []) ∷ (66 ∷ []) ∷ []

abbrev scanned_two : Scanner × List ℕ
scanned_two = feed_all (λ c. eqb c 32) chunks_two (new_scanner (some (60 ∷ 116 ∷ [])))

abbrev no_calls : List ℕ → List ℕ
no_calls text = []

feed_all-finish_example :
    (scanned_two.1 ++ kept scanned_two.0 ≡ 65 ∷ 60 ∷ 66 ∷ [])
    × ((finish (λ c. eqb c 32) no_calls scanned_two.0).2 ≡ []
        → scanned_two.1 ++ (finish (λ c. eqb c 32) no_calls scanned_two.0).1 ≡ 65 ∷ 60 ∷ 66 ∷ [])
feed_all-finish_example = feed_all-finish (λ c. eqb c 32) (some (60 ∷ 116 ∷ [])) no_calls chunks_two
