-- ===== src/AntiFraud/Keys.antt =====
-- The keys of the contribution cap: different contributions have different keys.
use mathlib.Core.List.{append_assoc}
use mathlib.Core.Path.{subst}
use wb_trial_task.Common.{
  ◌≡◌, ◌≢◌, refl, ◌∙◌, true, false, some, List, [], ◌∷◌, ◌++◌, arith, sym, Str, runes, All,
}
use wb_trial_task.AntiFraud.State.{contribution_key}
use wb_trial_task.Normalizer.{
  Unicode, IsUnicode, is_word, join, Service, normalize, is_blocked, StopSet,
}
use wb_trial_task.Normalizer.Output.{IsToken, normalize-IsNormal}

-- The text has no `|`.
abbrev pub HasNoBar : Str → Type 0
HasNoBar s = All (λ c. c ≢ b'|') s

-- The last `|` splits a key: what follows it is the query.
key_split :
    (a b q r : Str) → HasNoBar q → HasNoBar r → a ++ b'|' ∷ q ≡ b ++ b'|' ∷ r → (a ≡ b) × (q ≡ r)
key_split [] [] q r hq hr e = ground arith
key_split [] (c ∷ b) q r hq hr e = absurd (no_bar b r q (ground arith) hq)
  where
    no_bar : (b r q : Str) → q ≡ b ++ b'|' ∷ r → HasNoBar q → ⊥
    no_bar [] r q e h = let k : HasNoBar (b'|' ∷ r) = subst HasNoBar e h in k.0 refl
    no_bar (c ∷ b) r [] e h = cc
    no_bar (c ∷ b) r (d ∷ q) e h = no_bar b r q (ground arith) h.1
key_split (c ∷ a) [] q r hq hr e = absurd (no_bar a q r (ground arith) hr)
  where
    no_bar : (b r q : Str) → q ≡ b ++ b'|' ∷ r → HasNoBar q → ⊥
    no_bar [] r q e h = let k : HasNoBar (b'|' ∷ r) = subst HasNoBar e h in k.0 refl
    no_bar (c ∷ b) r [] e h = cc
    no_bar (c ∷ b) r (d ∷ q) e h = no_bar b r q (ground arith) h.1
key_split (c ∷ a) (d ∷ b) q r hq hr e =
    let (same, rest) = key_split a b q r hq hr (ground arith) in (ground arith, rest)

HasNoBar-append : (s t : Str) → HasNoBar s → HasNoBar t → HasNoBar (s ++ t)
HasNoBar-append [] t h k = k
HasNoBar-append (c ∷ s) t h k = (h.0, HasNoBar-append s t h.1 k)

module _ (u : Unicode) (std : IsUnicode u) where
  token-HasNoBar : (w : Str) → All (λ c. (is_word u c ≡ true) × (u.to_lower c ≡ c)) w → HasNoBar w
  token-HasNoBar [] t = tt
  token-HasNoBar (c ∷ w) t = (not_bar, token-HasNoBar w t.1)
    where
      not_bar : c ≢ b'|'
      not_bar e =
          let k : is_word u b'|' ≡ true = subst (λ x. is_word u x ≡ true) e t.0.0 in
          cc (std.bar_not_word)

  join-HasNoBar :
      (stop : StopSet) (ws : List Str)
      → All (λ w. IsToken u w × (is_blocked stop w ≡ false)) ws
      → HasNoBar (join ws)
  unfolding join
  join-HasNoBar stop [] a = tt
  join-HasNoBar stop (w ∷ []) a = token-HasNoBar w a.0.0.1
  join-HasNoBar stop (w ∷ v ∷ ws) a =
      HasNoBar-append w (0x20 ∷ join (v ∷ ws)) (token-HasNoBar w a.0.0.1)
        (λ e. absurd (omega arith), join-HasNoBar stop (v ∷ ws) a.1)

  normal-HasNoBar : (s : Service) (raw q : Str) → normalize u s raw ≡ some q → HasNoBar q
  normal-HasNoBar s raw q h =
      let n = normalize-IsNormal u std s raw q h in
      rw n.joined (join-HasNoBar s.stop_words n.parts n.every)

  -- For normalized queries the contribution key tells both the identity and the query: two equal
  -- keys come from the same identity key and the same query, whatever runes the identity has.
  pub contribution_key_injective :
      (s t : Service) (raw raw' q q' a b : Str)
      → normalize u s raw ≡ some q
      → normalize u t raw' ≡ some q'
      → contribution_key a q ≡ contribution_key b q'
      → (a ≡ b) × (q ≡ q')
  unfolding contribution_key
  contribution_key_injective s t raw raw' q q' a b h h' e =
      key_split a b q q' (normal-HasNoBar s raw q h) (normal-HasNoBar t raw' q' h')
        (sym (append_assoc a (runes "|") q) ∙ (e ∙ append_assoc b (runes "|") q'))
