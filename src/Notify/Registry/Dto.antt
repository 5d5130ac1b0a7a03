-- ===== src/Notify/Registry/Dto.antt =====
-- internal/notify/rules.go: the JSON form of a rule, with its durations as texts.
use logdoc.Common.{
  ℕ, zero, suc, ◌≡◌, ◌≢◌, refl, Option, none, some, List, [], ◌∷◌, Result, ok, err, ◌>>=◌,
}
use logdoc.Common.Int.{ℤ, pos, negsuc}
use logdoc.Common.Text.{Text}
use logdoc.Notify.Match.{Match}
use logdoc.Notify.Rule.{RuleConfig}

-- Go's `time.ParseDuration` and `Duration.String`.
pub record Durations : Type 0 where
  pub parse : Text → Option ℤ
  pub print : ℕ → Text
  -- a printed positive duration is not empty, and parses back
  pub print_set : (n : ℕ) → print (suc n) ≢ []
  pub parse-print : (n : ℕ) → parse (print (suc n)) ≡ some (pos (suc n))

pub record RuleDto : Type 0 where
  pub name : Text
  pub typ : Text
  pub app : Text
  pub threshold : ℤ
  pub window : Text
  pub cooldown : Text
  pub channels : List Text
  pub condition : Option Match
  pub max_fires : Option ℤ

pub data DtoError : Type 0 where
  invalid_window invalid_cooldown : DtoError

module _ (d : Durations) where
  positive : DtoError → Option ℤ → Result DtoError ℤ
  positive e none = err e
  positive e (some (pos zero)) = err e
  positive e (some (pos (suc n))) = ok (pos (suc n))
  positive e (some (negsuc n)) = err e

  -- An empty text leaves the zero value; any other must be a positive duration.
  duration_of : DtoError → Text → Result DtoError ℤ
  unfolding positive
  duration_of e [] = ok (pos 0)
  duration_of e (c ∷ s) = positive e (d.parse (c ∷ s))

  -- `ToRule`
  pub to_rule : RuleDto → Result DtoError RuleConfig
  unfolding duration_of
  to_rule r = do
    window ← duration_of invalid_window r.window
    cooldown ← duration_of invalid_cooldown r.cooldown
    ok (record {
      name = r.name;
      typ = r.typ;
      app = r.app;
      threshold = r.threshold;
      window = window;
      cooldown = cooldown;
      channels = r.channels;
      condition = r.condition;
      max_fires = r.max_fires;
    })

  duration_text : ℤ → Text
  duration_text (pos zero) = []
  duration_text (pos (suc n)) = d.print (suc n)
  duration_text (negsuc n) = []

  -- `toDTO`
  pub to_dto : RuleConfig → RuleDto
  unfolding duration_text
  to_dto r = record {
    name = r.name;
    typ = r.typ;
    app = r.app;
    threshold = r.threshold;
    window = duration_text r.window;
    cooldown = duration_text r.cooldown;
    channels = r.channels;
    condition = r.condition;
    max_fires = r.max_fires;
  }

  -- A duration that is not positive is as good as none: it takes the default.
  pub normal : ℤ → ℤ
  normal (pos n) = pos n
  normal (negsuc n) = pos 0

  duration_of-print :
      (e : DtoError) (n : ℕ) (t : Text) → d.print (suc n) ≡ t → duration_of e t ≡ ok (pos (suc n))
  unfolding duration_of
  duration_of-print e n [] h = absurd (d.print_set n h)
  duration_of-print e n (c ∷ s) h = rw (← h, d.parse-print n) refl

  duration_of-duration_text :
      (e : DtoError) (z : ℤ) → duration_of e (duration_text z) ≡ ok (normal z)
  unfolding duration_text normal
  duration_of-duration_text e (pos zero) = unfold duration_of in refl
  duration_of-duration_text e (pos (suc n)) = duration_of-print e n (d.print (suc n)) refl
  duration_of-duration_text e (negsuc n) = unfold duration_of in refl

  -- A rule that goes through its JSON form comes back as it was, but for negative durations, which
  -- come back as 0 and so mean the default as before.
  pub to_rule-to_dto :
      (r : RuleConfig)
      → to_rule (to_dto r)
        ≡ ok (record r { window = normal r.window; cooldown = normal r.cooldown })
  unfolding to_rule to_dto
  to_rule-to_dto r =
      rw
        (
          duration_of-duration_text invalid_window r.window,
          duration_of-duration_text invalid_cooldown r.cooldown,
        )
        refl
