-- ===== src/Templates.antt =====
-- The texts of notifications that administrators edit: the entries of the catalog of
-- backend/internal/model/notification_template.go. `Templates.Scan` scans and fills texts,
-- `Templates.Validation` checks them, `Templates.Service` chooses between the stored text and the
-- default, and `Templates.Saving` stores an edit.
pub mod Scan
pub mod Validation
pub mod Service
pub mod Filled
pub mod Rendering
pub mod Saving
pub mod Shown
mod Examples
use daeil_scholar.Prelude.{ℕ, Bool, true, false, Option, none, some, List, [], ◌∷◌, if◌then◌else◌}
use daeil_scholar.Prelude.Text.{Text, codes, text_eq}

-- The channels. A row of the store may have any other text.
abbrev pub sms : Text
sms = codes "sms"

abbrev pub push : Text
push = codes "push"

-- A placeholder, without its description.
pub record Placeholder : Type 0 where
  pub name : Text
  pub required : Bool
  pub sample : Text

-- An entry of the catalog, without its names for the administrator's screen.
pub record Definition : Type 0 where
  pub key : Text
  pub channel : Text
  pub default_title : Text
  pub default_body : Text
  pub placeholders : List Placeholder

abbrev pub code : Placeholder
code = record { name = codes "code"; required = true; sample = codes "000000" }

abbrev pub sender_name : Placeholder
sender_name = record { name = codes "senderName"; required = false; sample = codes "홍길동" }

abbrev pub content : Placeholder
content = record { name = codes "content"; required = true; sample = codes "쪽지 내용" }

abbrev pub subject : Placeholder
subject = record { name = codes "subject"; required = true; sample = codes "공지 제목" }

abbrev pub phone_verification : Definition
phone_verification = record {
  key = codes "sms.phone_verification";
  channel = sms;
  default_title = [];
  default_body = codes "[대일외고장학회] 인증번호 {code} 를 입력해 주세요.";
  placeholders = code ∷ [];
}

abbrev pub verification_approved : Definition
verification_approved = record {
  key = codes "push.verification.approved";
  channel = push;
  default_title = codes "동문 인증 결과";
  default_body = codes "동문 인증이 승인되었습니다. 이제 동문 커뮤니티를 이용할 수 있어요.";
  placeholders = [];
}

abbrev pub verification_rejected : Definition
verification_rejected = record {
  key = codes "push.verification.rejected";
  channel = push;
  default_title = codes "동문 인증 결과";
  default_body = codes "동문 인증 신청이 반려되었습니다. 앱에서 사유를 확인하고 다시 신청해 주세요.";
  placeholders = [];
}

abbrev pub message_preview_off : Definition
message_preview_off = record {
  key = codes "push.message.new_preview_off";
  channel = push;
  default_title = codes "{senderName}";
  default_body = codes "새 메시지가 도착했습니다.";
  placeholders = sender_name ∷ [];
}

abbrev pub message_preview_on : Definition
message_preview_on = record {
  key = codes "push.message.new_preview_on";
  channel = push;
  default_title = codes "{senderName}";
  default_body = codes "{content}";
  placeholders = sender_name ∷ content ∷ [];
}

abbrev pub notice_new : Definition
notice_new = record {
  key = codes "push.notice.new";
  channel = push;
  default_title = codes "새 소식";
  default_body = codes "{subject}";
  placeholders = subject ∷ [];
}

abbrev pub notification_template_catalog : List Definition
notification_template_catalog =
    phone_verification ∷ verification_approved ∷ verification_rejected ∷ message_preview_off
    ∷ message_preview_on ∷ notice_new ∷ []

abbrev pub find_definition : Text → List Definition → Option Definition
find_definition key [] = none
find_definition key (d ∷ ds) =
    let rest = find_definition key ds in if text_eq d.key key then some d else rest

unfoldable pub notification_template_definition_for : Text → Option Definition
notification_template_definition_for key = find_definition key notification_template_catalog

abbrev pub allows_placeholder : List Placeholder → Text → Bool
allows_placeholder [] name = false
allows_placeholder (p ∷ ps) name =
    let rest = allows_placeholder ps name in if text_eq p.name name then true else rest
