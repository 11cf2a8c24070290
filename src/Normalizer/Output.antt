-- ===== src/Normalizer/Output.antt =====
-- What a normalized query looks like, and that normalizing it again gives it back.
use wb_trial_task.Common.{
  ◌≡◌, refl, ap, ◌∙◌, true, false, none, some, List, [], ◌∷◌, ◌++◌, arith, if◌then◌else◌, ltb, sym,
  Str, is_empty, All, Bool-cases, inl, inr, length, ◌≤◌,
}
use mathlib.Core.List.{append-nil}
use wb_trial_task.Normalizer.Text.{
  is_space, Unicode, IsUnicode, is_word, push, runs, words, join, StopSet, Service, is_blocked,
  drop_blocked, to_lower, normalize,
}
use wb_trial_task.Normalizer.Reference.{tokens, normalize-reference}

-- A word: not empty, and every rune kept and equal to its lower case.
abbrev pub IsToken : Unicode → Str → Type 0
IsToken u w = (is_empty w ≡ false) × All (λ c. (is_word u c ≡ true) × (u.to_lower c ≡ c)) w

-- A normalized query is made of tokens that are not blocked, with one space between them.
pub record IsNormal (u : Unicode) (stop : StopSet) (q : Str) : Type 0 where
  pub parts : List Str
  pub joined : q ≡ join parts
  pub every : All (λ w. IsToken u w × (is_blocked stop w ≡ false)) parts
  pub long : 2 ≤ length q

All-drop_blocked :
    (u : Unicode) (stop : StopSet) (ws : List Str)
    → All (IsToken u) ws
    → All (λ w. IsToken u w × (is_blocked stop w ≡ false)) (drop_blocked stop ws)
unfolding drop_blocked
All-drop_blocked u stop [] a = tt
All-drop_blocked u stop (w ∷ ws) a = elim (Bool-cases (is_blocked stop w)) [
  | inl out ↦ rw (out, drop_blocked) (All-drop_blocked u stop ws a.1)
  | inr kept ↦ rw (kept, drop_blocked) ((a.0, kept), All-drop_blocked u stop ws a.1)
]

drop_blocked_none :
    (u : Unicode) (stop : StopSet) (ws : List Str)
    → All (λ w. IsToken u w × (is_blocked stop w ≡ false)) ws
    → drop_blocked stop ws ≡ ws
unfolding drop_blocked
drop_blocked_none u stop [] a = refl
drop_blocked_none u stop (w ∷ ws) a = ground (arith, drop_blocked_none u stop ws a.1, a.0.1)

module _ (u : Unicode) (std : IsUnicode u) where
  -- The first run of a lower-cased text, and the words behind it.
  abbrev Lowered : Str → Type 0
  Lowered w = All (λ c. (is_word u c ≡ true) × (u.to_lower c ≡ c)) w

  All-push :
      (w : Str) (ws : List Str) → Lowered w → All (IsToken u) ws → All (IsToken u) (push (w, ws))
  All-push [] ws l a = a
  All-push (c ∷ w) ws l a = ((refl, l), a)

  All-runs :
      (raw : Str)
      → Lowered (runs (is_word u) (to_lower u raw)).0
        × All (IsToken u) (runs (is_word u) (to_lower u raw)).1
  unfolding runs
  All-runs [] = (tt, tt)
  All-runs (c ∷ raw) =
      let (l, a) = All-runs raw in
      let r = runs (is_word u) (to_lower u raw) in
      elim (Bool-cases (is_word u (u.to_lower c))) [
        | inl keep ↦ rw keep (((keep, std.to_lower_idem c), l), a)
        | inr out ↦ rw out (tt, All-push r.0 r.1 l a)
      ]

  tokens-IsToken : (raw : Str) → All (IsToken u) (tokens u std raw)
  unfolding words
  tokens-IsToken raw =
      let (l, a) = All-runs raw in let r = runs (is_word u) (to_lower u raw) in All-push r.0 r.1 l a

  -- A query that `Normalize` returns is normal for the stop-list in force.
  pub normalize-IsNormal :
      (s : Service) (raw q : Str) → normalize u s raw ≡ some q → IsNormal u s.stop_words q
  normalize-IsNormal s raw q h =
      let parts = drop_blocked s.stop_words (tokens u std raw) in
      let e : (if ltb (length (join parts)) 2 then none else some (join parts)) ≡ some q =
        sym (normalize-reference u std s raw) ∙ h in
      record {
        parts = parts;
        joined = ground arith;
        every = All-drop_blocked u s.stop_words (tokens u std raw) (tokens-IsToken raw);
        long = ground arith;
      }

  -- Splitting a joined list of tokens gives the tokens.
  runs-append :
      (w rest : Str)
      → Lowered w
      → runs (is_word u) (to_lower u (w ++ rest))
        ≡ (w ++ (runs (is_word u) (to_lower u rest)).0, (runs (is_word u) (to_lower u rest)).1)
  unfolding runs
  runs-append [] rest l = refl
  runs-append (c ∷ w) rest l = ground (arith, l.0, runs-append w rest l.1)

  space_not_word : is_word u (u.to_lower 0x20) ≡ false
  space_not_word = rw std.to_lower-space (std.space_not_word 0x20 (unfold is_space in refl))

  runs-space :
      (rest : Str)
      → runs (is_word u) (to_lower u (0x20 ∷ rest)) ≡ ([], words (is_word u) (to_lower u rest))
  unfolding runs words
  runs-space rest = rw space_not_word refl

  push-token : (w : Str) (ws : List Str) → IsToken u w → push (w ++ [], ws) ≡ w ∷ ws
  push-token [] ws t = cc
  push-token (c ∷ w) ws t = ap (λ (v : Str). (c ∷ v) ∷ ws) (append-nil w)

  tokens-append :
      (w rest : Str)
      → IsToken u w
      → words (is_word u) (to_lower u (w ++ 0x20 ∷ rest)) ≡ w ∷ words (is_word u) (to_lower u rest)
  unfolding words
  tokens-append w rest t =
      ap push (
        runs-append w (0x20 ∷ rest) t.1
        ∙ ap (λ (r : Str × List Str). (w ++ r.0, r.1)) (runs-space rest))
      ∙ push-token w (words (is_word u) (to_lower u rest)) t

  tokens_one : (w : Str) → IsToken u w → words (is_word u) (to_lower u w) ≡ w ∷ []
  unfolding words runs
  tokens_one w t =
      ap (λ (v : Str). push (runs (is_word u) (to_lower u v))) (sym (append-nil w))
      ∙ (ap push (runs-append w [] t.1) ∙ push-token w [] t)

  tokens-join : (ws : List Str) → All (IsToken u) ws → words (is_word u) (to_lower u (join ws)) ≡ ws
  unfolding words runs join
  tokens-join [] a = refl
  tokens-join (w ∷ []) a = tokens_one w a.0
  tokens-join (w ∷ v ∷ ws) a =
      tokens-append w (join (v ∷ ws)) a.0 ∙ ap (◌∷◌ w) (tokens-join (v ∷ ws) a.1)

  All-IsToken :
      (stop : StopSet) (ws : List Str)
      → All (λ w. IsToken u w × (is_blocked stop w ≡ false)) ws
      → All (IsToken u) ws
  All-IsToken stop [] a = tt
  All-IsToken stop (w ∷ ws) a = (a.0.0, All-IsToken stop ws a.1)

  IsNormal-normalize :
      (s : Service) (q : Str) → IsNormal u s.stop_words q → normalize u s q ≡ some q
  IsNormal-normalize s q n =
      let split : tokens u std q ≡ n.parts =
        rw n.joined (tokens-join n.parts (All-IsToken s.stop_words n.parts n.every)) in
      let kept = drop_blocked_none u s.stop_words n.parts n.every in
      normalize-reference u std s q ∙ rw (split, kept, ← n.joined) (ground (arith, n.long))

  -- Normalizing a normalized query again, under the same stop-list, gives it back.
  pub normalize_idem :
      (s : Service) (raw q : Str) → normalize u s raw ≡ some q → normalize u s q ≡ some q
  normalize_idem s raw q h = IsNormal-normalize s q (normalize-IsNormal s raw q h)
