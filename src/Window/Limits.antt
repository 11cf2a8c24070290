-- ===== src/Window/Limits.antt =====
-- What the window engine does with late events.
use wb_trial_task.Common.{
  ℕ, ◌<◌, ◌≡◌, refl, ◌∙◌, some, [], ◌∷◌, arith, Str, length, get_elem?, get_elem?-lt_length, inl,
  inr,
}
use wb_trial_task.Common.Dict.{lookup, insert}
use wb_trial_task.Window.{Bucket, Engine, bucket_index, add_at}
use wb_trial_task.Window.Ring.{add_at-Stepped}
use wb_trial_task.Window.Invariant.{IsValid, add_at-IsValid}

-- An event whose second is older than the one that its bucket holds throws that bucket's counts
-- away: whatever the newer second had counted, the bucket then holds the late event alone.
pub late_add_drops_newer_counts :
    (sec : ℕ) (q : Str) (score : ℕ) (e : Engine) (b : Bucket)
    → 0 < score
    → IsValid e
    → get_elem? e.buckets (bucket_index sec e) ≡ some b
    → sec < b.epoch_second
    → (e' : Engine) × (add_at sec q score e ≡ some e')
      × (get_elem? e'.buckets (bucket_index sec e)
          ≡ some (record { epoch_second = sec; counts = (q, score) ∷ [] }))
unfolding lookup insert
late_add_drops_newer_counts sec q score e b p v found late =
    let (e', a) = add_at-IsValid sec q score e p v in
    let st = add_at-Stepped sec q score e e' a.runs in
    let lt : bucket_index sec e < length e'.buckets =
      grind (arith, v.window_pos, a.valid.ring, st.window) in
    let (b', at) = get_elem?-lt_length e'.buckets (bucket_index sec e) lt in
    let (b₀, old, cases) = st.bucket (bucket_index sec e) b' at in
    (
      e',
      a.runs,
      at ∙ elim cases [ inl (here, is) ↦ ground arith | inr (other, is) ↦ absurd (other refl) ],
    )
