-- ===== src/Alerter/Reachable.antt =====
-- Which channels of a rule internal/alerter/engine.go sends an alert to.
use gi_con_mon.Common.{
  String, ◌≡◌, refl, some, none, ◌∙◌, ap, List, [], ◌∷◌, map, inl, inr, Option-cases,
}
use gi_con_mon.Model.{Target, Event, Alert}
use gi_con_mon.Alerter.Rules.{RuleConfig}
use gi_con_mon.Alerter.Engine.{Engine, Message}
use gi_con_mon.Alerter.Process.{dispatch_to, resolve_channel, dispatch, deliver}

module _ {F : Type 0} where
  -- The channels of a list that are configured with a registered notifier.
  unfoldable pub reachable : Engine F → List String → List String
  unfolding resolve_channel
  reachable e [] = []
  reachable e (channel ∷ rest) =
      let others = reachable e rest in
      elim (resolve_channel e channel) [ none ↦ others | some found ↦ channel ∷ others ]

  channels-dispatch_to :
      (e : Engine F) (msg : Message F) (channels : List String)
      → map (λ d. d.channel) (dispatch_to e msg channels) ≡ reachable e channels
  unfolding dispatch_to reachable deliver
  channels-dispatch_to e msg [] = refl
  channels-dispatch_to e msg (channel ∷ rest) = elim (Option-cases (resolve_channel e channel)) [
    | inl missing ↦ rw (missing, map, reachable) (channels-dispatch_to e msg rest)
    | inr (found, h) ↦ rw (h, map, reachable) (ap (channel ∷◌) (channels-dispatch_to e msg rest))
  ]

  -- The goroutines that `dispatch` starts are one for each channel of the rule that is configured
  -- and whose type has a notifier, in the rule's order and with repetitions; every other channel is
  -- skipped and does not keep the later ones from theirs.
  pub channels-dispatch :
      (e : Engine F) (alert : Alert) (rule : RuleConfig) (event : Event F) (target : Target F)
      → map (λ d. d.channel) (dispatch e alert rule event target) ≡ reachable e rule.channels
  unfolding dispatch
  channels-dispatch e alert rule event target = channels-dispatch_to e _ rule.channels

  resolve_channel-same :
      (e e' : Engine F) (channel : String)
      → e'.channels ≡ e.channels
      → e'.notifiers ≡ e.notifiers
      → resolve_channel e' channel ≡ resolve_channel e channel
  unfolding resolve_channel
  resolve_channel-same e e' channel c n = rw (c, n) refl

  -- The throttle and the stored alerts do not count.
  pub reachable-same :
      (e e' : Engine F) (channels : List String)
      → e'.channels ≡ e.channels
      → e'.notifiers ≡ e.notifiers
      → reachable e' channels ≡ reachable e channels
  unfolding reachable
  reachable-same e e' [] c n = refl
  reachable-same e e' (channel ∷ rest) c n =
      let same = resolve_channel-same e e' channel c n in
      let others = reachable-same e e' rest c n in
      elim (Option-cases (resolve_channel e channel)) [
        | inl missing ↦ rw (same ∙ missing, missing, reachable) others
        | inr (found, h) ↦ rw (same ∙ h, h, reachable) (ap (channel ∷◌) others)
      ]
