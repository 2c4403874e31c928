-- ===== src/Alerter/Notifier/Sent.antt =====
-- When a notifier reports no error.
use gi_con_mon.Alerter.Engine.{Message}
use gi_con_mon.Model.{FloatOps, AnyMap, as_float}
use gi_con_mon.Common.{
  ◌≡◌, some, ◌<ℤ◌, ◌↔◌, arith, ◌≢◌, eq_iff, Option, String, pos, none, lookup, ℤ,
}
use gi_con_mon.Alerter.Notifier.{
  NotifierLib, Reply, webhook_send, webhook_error, ding_talk_send, replied, robot_error, code_error,
  we_com_send, Post, not_built, not_answered, text_at, webhook_post, ding_talk_post, we_com_post,
}

module _ {F H : Type 0} ⦃fl : FloatOps F⦄ (lib : NotifierLib F H) where
  -- The reply that a webhook takes for a success, and the one that a robot does.
  abbrev pub HookAccepts : Reply F → Type 0
  HookAccepts (replied status_code decoded) = status_code <ℤ pos 400
  HookAccepts _ = ⊥

  abbrev pub NoErrcode : Option F → Type 0
  NoErrcode none = Unit
  NoErrcode (some code) = fl.to_int64 code ≡ pos 0

  abbrev pub BodyAccepts : Option (AnyMap F) → Type 0
  BodyAccepts none = Unit
  BodyAccepts (some result) = NoErrcode (as_float (lookup "errcode" result))

  abbrev pub RobotAccepts : Reply F → Type 0
  RobotAccepts (replied status_code decoded) = BodyAccepts decoded
  RobotAccepts _ = ⊥

  webhook_error-none : (r : Reply F) → (webhook_error lib r ≡ none) ↔ HookAccepts r
  webhook_error-none (not_built text) = ground arith
  webhook_error-none (not_answered text) = ground arith
  webhook_error-none (replied status_code decoded) = ground arith

  code_error-none :
      (name : String) (result : AnyMap F) (code : Option F)
      → (code_error lib name result code ≡ none) ↔ NoErrcode code
  code_error-none name result none = ground arith
  code_error-none name result (some code) = ground arith

  robot_error-none :
      (name : String) (r : Reply F) → (robot_error lib name r ≡ none) ↔ RobotAccepts r
  robot_error-none name (not_built text) = ground arith
  robot_error-none name (not_answered text) = ground arith
  robot_error-none name (replied status_code none) = ground arith
  robot_error-none name (replied status_code (some result)) =
      code_error-none name result (as_float (lookup "errcode" result))

  -- A notifier reports no error exactly if its address is configured and the exchange is answered:
  -- for the webhook with a status below 400, for DingTalk and WeCom with a body that is no JSON
  -- object or names no error code but 0, whatever the status.
  pub sends_none :
      (exchange : Post F H → Reply F) (ts : ℤ) (msg : Message F) (cfg : AnyMap F)
      → ((webhook_send lib exchange msg cfg ≡ none)
          ↔ ((text_at cfg "url" ≢ "") × HookAccepts (exchange (webhook_post lib msg cfg))))
        × ((ding_talk_send lib exchange ts msg cfg ≡ none) ↔ (
            (text_at cfg "webhook" ≢ "") × RobotAccepts (exchange (ding_talk_post lib ts msg cfg))))
        × ((we_com_send lib exchange msg cfg ≡ none)
            ↔ ((text_at cfg "webhook" ≢ "") × RobotAccepts (exchange (we_com_post lib msg cfg))))
  unfolding webhook_send ding_talk_send we_com_send
  sends_none exchange ts msg cfg = (
    ground (
      arith,
      eq_iff (text_at cfg "url") "",
      webhook_error-none (exchange (webhook_post lib msg cfg)),
    ),
    ground (
      arith,
      eq_iff (text_at cfg "webhook") "",
      robot_error-none "dingtalk" (exchange (ding_talk_post lib ts msg cfg)),
    ),
    ground (
      arith,
      eq_iff (text_at cfg "webhook") "",
      robot_error-none "wecom" (exchange (we_com_post lib msg cfg)),
    ),
  )
