-- ===== src/Alerter/Notifier.antt =====
-- internal/alerter/notifier/notifier.go: `Send` of the three notifiers. The HTTP client, `http.Header`, the
-- keyed hash, `fmt`'s printing and the clock are arguments. A payload is the value that is marshalled.
pub mod Sent
use gi_con_mon.Model.{
  FloatOps, AnyMap, Any, null, object, Time, Fields, as_float, status_eq, field, str, end, up,
  status_name,
}
use gi_con_mon.Common.{
  [], ◌∷◌, String, Option, ℤ, lookup, if◌then◌else◌, str_append, some, int_eqb, none, str_eq,
  int_leb, pos,
}
use gi_con_mon.Alerter.Engine.{Message}

-- `fmt`, `http.Header`, `Format(time.RFC3339)`, and the Base64 text of HMAC-SHA256 by key and data.
pub record NotifierLib (F H : Type 0) : Type 0 where
  pub decimal : ℤ → String
  pub value : Any F → String
  pub rfc3339 : Time → String
  pub hmac_base64 : String → String → String
  pub no_headers : H
  pub set_header : String → String → H → H

-- The request of a `Send`.
pub record Post (F H : Type 0) : Type 0 where
  pub url : String
  pub payload : Any F
  pub headers : H

-- The request cannot be built, the exchange fails, or it is answered with a status and a body, which is
-- decoded as a JSON object or not.
pub data Reply (F : Type 0) : Type 0 where
  not_built : String → Reply F
  not_answered : String → Reply F
  replied : (status_code : ℤ) (decoded : Option (AnyMap F)) → Reply F

module _ {F : Type 0} where
  -- `cfg[key].(string)`, empty where it fails
  abbrev pub text_in : Option (Any F) → String
  text_in (some (str s)) = s
  text_in _ = ""

  unfoldable pub text_at : AnyMap F → String → String
  text_at cfg key = text_in (lookup key cfg)

module _ {F H : Type 0} ⦃fl : FloatOps F⦄ (lib : NotifierLib F H) where
  abbrev pub json_headers : H
  json_headers = lib.set_header "Content-Type" "application/json" lib.no_headers

  -- The loop over the custom headers, in the order of the map.
  unfoldable pub add_headers : Fields F → H → H
  add_headers end h = h
  add_headers (field k v fields) h = add_headers fields (lib.set_header k (lib.value v) h)

  abbrev pub custom : Option (Any F) → H → H
  custom (some (object fields)) h = add_headers fields h
  custom _ h = h

  -- The payload of the webhook.
  unfoldable pub webhook_payload : Message F → Any F
  webhook_payload msg = object (
      field "title" (str msg.title) (
        field "body" (str msg.body) (
          field "severity" (str msg.severity) (
            field "target"
              (object (
                field "id" (str msg.target.id)
                  (field "name" (str msg.target.name) (field "host" (str msg.target.host) end))))
              (field "event"
                (object (
                  field "from" (str (status_name msg.event.from_status)) (
                    field "to" (str (status_name msg.event.to_status))
                      (field "ts" (str (lib.rfc3339 msg.event.timestamp)) end))))
                (field "alert_id" (str msg.alert.id) end))))))

  unfoldable pub webhook_post : Message F → AnyMap F → Post F H
  unfolding webhook_payload text_at add_headers
  webhook_post msg cfg =
      let secret = text_at cfg "secret" in
      record {
        url = text_at cfg "url";
        payload = webhook_payload msg;
        headers = custom (lookup "headers" cfg) (
            if str_eq secret ""
            then json_headers
            else lib.set_header "X-Webhook-Secret" secret json_headers);
      }

  -- The error of a webhook for a reply.
  abbrev pub webhook_error : Reply F → Option String
  webhook_error (not_built text) = some text
  webhook_error (not_answered text) = some (str_append "webhook: request failed: " text)
  webhook_error (replied status_code decoded) =
      if int_leb (pos 400) status_code
      then some (str_append "webhook: server returned " (lib.decimal status_code))
      else none

  -- `WebhookNotifier.Send`
  unfoldable pub webhook_send : (Post F H → Reply F) → Message F → AnyMap F → Option String
  unfolding text_at webhook_post
  webhook_send exchange msg cfg =
      if str_eq (text_at cfg "url") ""
      then some "webhook: url is required"
      else webhook_error (exchange (webhook_post msg cfg))

  -- What the two robots do with the body of a reply, whatever its status.
  abbrev pub errmsg_of : Option (Any F) → Any F
  errmsg_of none = null
  errmsg_of (some v) = v

  abbrev pub code_error : String → AnyMap F → Option F → Option String
  code_error name result none = none
  code_error name result (some code) =
      if int_eqb (fl.to_int64 code) (pos 0)
      then none
      else some (
          str_append name (
            str_append ": errcode=" (
              str_append (lib.decimal (fl.to_int64 code))
                (str_append " errmsg=" (lib.value (errmsg_of (lookup "errmsg" result)))))))

  abbrev pub body_error : String → Option (AnyMap F) → Option String
  body_error name none = none
  body_error name (some result) = code_error name result (as_float (lookup "errcode" result))

  abbrev pub robot_error : String → Reply F → Option String
  robot_error name (not_built text) = some text
  robot_error name (not_answered text) =
      some (str_append name (str_append ": request failed: " text))
  robot_error name (replied status_code decoded) = body_error name decoded

  -- `dingTalkSign`
  unfoldable pub ding_talk_sign : String → ℤ → String
  ding_talk_sign secret timestamp =
      lib.hmac_base64 secret (str_append (lib.decimal timestamp) (str_append "\n" secret))

  -- The address with its signature, at an instant in milliseconds.
  unfoldable pub signed_url : String → String → ℤ → String
  unfolding ding_talk_sign
  signed_url url secret ts =
      if str_eq secret ""
      then url
      else (str_append url (
          str_append "&timestamp="
            (str_append (lib.decimal ts) (str_append "&sign=" (ding_talk_sign secret ts)))))

  unfoldable pub ding_talk_post : ℤ → Message F → AnyMap F → Post F H
  unfolding text_at signed_url
  ding_talk_post ts msg cfg =
      let emoji = if status_eq msg.event.to_status up then "🟢" else "🔴" in
      record {
        url = signed_url (text_at cfg "webhook") (text_at cfg "secret") ts;
        payload = object (
            field "msgtype" (str "markdown") (
              field "markdown"
                (object (
                  field "title" (str msg.title) (
                    field "text"
                      (str (
                        str_append emoji
                          (str_append " **" (str_append msg.title (str_append "**\n\n" msg.body)))))
                      end)))
                end));
        headers = json_headers;
      }

  -- `DingTalkNotifier.Send`; the event of a message is always there.
  unfoldable pub ding_talk_send : (Post F H → Reply F) → ℤ → Message F → AnyMap F → Option String
  unfolding text_at ding_talk_post
  ding_talk_send exchange ts msg cfg =
      if str_eq (text_at cfg "webhook") ""
      then some "dingtalk: webhook URL is required"
      else robot_error "dingtalk" (exchange (ding_talk_post ts msg cfg))

  unfoldable pub we_com_post : Message F → AnyMap F → Post F H
  unfolding text_at
  we_com_post msg cfg = record {
    url = text_at cfg "webhook";
    payload = object (
        field "msgtype" (str "markdown") (
          field "markdown"
            (object (
              field "content"
                (str (str_append "**" (str_append msg.title (str_append "**\n\n" msg.body)))) end))
            end));
    headers = json_headers;
  }

  -- `WeComNotifier.Send`
  unfoldable pub we_com_send : (Post F H → Reply F) → Message F → AnyMap F → Option String
  unfolding text_at we_com_post
  we_com_send exchange msg cfg =
      if str_eq (text_at cfg "webhook") ""
      then some "wecom: webhook URL is required"
      else robot_error "wecom" (exchange (we_com_post msg cfg))
