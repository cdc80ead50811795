-- ===== src/Push.antt =====
-- Push notifications: backend/internal/service/push_delivery.go, whose payloads carry what the apps
-- show. A renderer makes the visible texts from templates that administrators edit.
pub mod Delivery
pub mod Guards
pub mod Private
pub mod Broadcast
pub mod FanOut
pub mod Shutdown
mod Examples
use daeil_scholar.Prelude.{
  ℕ, Bool, true, false, not, ◌&&◌, ◌||◌, Option, none, some, List, [], ◌∷◌, ◌++◌, if◌then◌else◌,
}
use daeil_scholar.Prelude.Int.{ℤ}
use daeil_scholar.Prelude.Text.{Text, codes, itoa}

pub record PushPreferences : Type 0 where
  pub message_enabled : Bool
  pub message_preview_enabled : Bool
  pub notice_enabled : Bool

pub record Target : Type 0 where
  pub session_id : Text
  pub platform : Text
  pub device_token : Text

pub data VerificationStatus : Type 0 where
  approved rejected : VerificationStatus

pub data TemplateKey : Type 0 where
  verification_approved verification_rejected message_preview_off message_preview_on : TemplateKey
  notice_new : TemplateKey

pub record RenderedTemplate : Type 0 where
  pub key : Text
  pub version : ℤ
  pub title : Text
  pub body : Text

pub record NoticeBroadcast : Type 0 where
  pub seq : ℤ
  pub subject : Text
  pub created_at : Text
  pub rendered : RenderedTemplate

-- A queued item: a message, a review of a member's verification, or a notice.
pub data Item : Type 0 where
  message : ℤ → ℤ → Text → ℤ → Text → Text → Item
  review : ℤ → VerificationStatus → Item
  notice : ℤ → NoticeBroadcast → Item

-- Fields that a payload leaves out are empty.
pub record Payload : Type 0 where
  pub recipient_user_seq : Text
  pub verification_status : Option VerificationStatus
  pub kind : Text
  pub event_id : Text
  pub message_id : Text
  pub conversation_user_seq : Text
  pub sender_user_seq : Text
  pub sender_name : Text
  pub post_seq : Text
  pub subject : Text
  pub title : Text
  pub body : Text
  pub preview : Text
  pub created_at : Text
  pub template_key : Text
  pub template_version : ℤ

pub data Act : Type 0 where
  asked_message : Bool → Act
  asked_target : Target → Bool → Act
  sent : Target → Payload → Act
  deleted : Target → Act

pub data SendResult : Type 0 where
  delivered invalid_token transient refused : SendResult

-- The store, the provider and the renderer. An answer may depend on all that was done before, the
-- newest first; none is an error of the store.
pub record Env : Type 0 where
  pub render : TemplateKey → List (Text × Text) → RenderedTemplate
  pub now_nanos : ℤ
  pub now_text : Text
  pub preferences : ℤ → Option (Option PushPreferences)
  pub devices : ℤ → Option (List Target)
  pub notice_published : Option (ℤ → Option Bool)
  pub verification_current : Option (ℤ → VerificationStatus → Option Bool)
  pub message_available : Option (List Act → Option Bool)
  pub target_current : Option (List Act → Target → Option Bool)
  pub send : List Act → Target → Payload → SendResult

abbrev template_of : VerificationStatus → TemplateKey
template_of rejected = verification_rejected
template_of approved = verification_approved

abbrev pub build_verification_payload : Env → ℤ → VerificationStatus → Payload
build_verification_payload env recvr status =
    let rendered = env.render (template_of status) [] in
    record {
      recipient_user_seq = itoa recvr;
      verification_status = some status;
      kind = codes "verification.reviewed";
      event_id = codes "verification-" ++ (itoa recvr ++ (codes "-" ++ itoa env.now_nanos));
      message_id = [];
      conversation_user_seq = [];
      sender_user_seq = [];
      sender_name = codes "동문 인증 결과";
      post_seq = [];
      subject = [];
      title = rendered.title;
      body = rendered.body;
      preview = rendered.body;
      created_at = env.now_text;
      template_key = rendered.key;
      template_version = rendered.version;
    }

abbrev pub is_preview_enabled : Option PushPreferences → Bool
is_preview_enabled none = true
is_preview_enabled (some p) = p.message_preview_enabled

abbrev render_message : Env → Bool → Text → Text → RenderedTemplate
render_message env true name content =
    env.render message_preview_on ((codes "senderName", name) ∷ (codes "content", content) ∷ [])
render_message env false name content =
    env.render message_preview_off ((codes "senderName", name) ∷ [])

abbrev preview_of : Bool → RenderedTemplate → Text → Text
preview_of true rendered content = content
preview_of false rendered content = rendered.body

abbrev pub build_message_payload :
    Env → ℤ → ℤ → Text → ℤ → Text → Text → Option PushPreferences → Payload
build_message_payload env recvr sender name message_id created_at content preferences =
    let enabled = is_preview_enabled preferences in
    let rendered = render_message env enabled name content in
    record {
      recipient_user_seq = itoa recvr;
      verification_status = none;
      kind = codes "message";
      event_id = itoa message_id;
      message_id = itoa message_id;
      conversation_user_seq = itoa sender;
      sender_user_seq = itoa sender;
      sender_name = name;
      post_seq = [];
      subject = [];
      title = rendered.title;
      body = rendered.body;
      preview = preview_of enabled rendered content;
      created_at = created_at;
      template_key = rendered.key;
      template_version = rendered.version;
    }

abbrev pub build_notice_payload : ℤ → NoticeBroadcast → Payload
build_notice_payload recvr b = record {
  recipient_user_seq = itoa recvr;
  verification_status = none;
  kind = codes "admin.notice";
  event_id = codes "notice-" ++ itoa b.seq;
  message_id = [];
  conversation_user_seq = [];
  sender_user_seq = [];
  sender_name = codes "새 소식";
  post_seq = itoa b.seq;
  subject = b.subject;
  title = b.rendered.title;
  body = b.rendered.body;
  preview = b.subject;
  created_at = b.created_at;
  template_key = b.rendered.key;
  template_version = b.rendered.version;
}

abbrev pub is_message_off : Option PushPreferences → Bool
is_message_off none = false
is_message_off (some p) = not p.message_enabled

abbrev pub message_payload :
    Env → ℤ → ℤ → Text → ℤ → Text → Text → Option (Option PushPreferences) → Option Payload
message_payload env recvr sender name id created_at content none = none
message_payload env recvr sender name id created_at content (some preferences) =
    if is_message_off preferences
    then none
    else some (build_message_payload env recvr sender name id created_at content preferences)

-- None is an item that must not be sent.
unfoldable pub build_payload : Env → Item → Option Payload
unfolding itoa
build_payload env (notice recvr b) = some (build_notice_payload recvr b)
build_payload env (review recvr status) = some (build_verification_payload env recvr status)
build_payload env (message recvr sender name id created_at content) =
    message_payload env recvr sender name id created_at content (env.preferences recvr)
