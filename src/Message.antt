-- ===== src/Message.antt =====
-- The agent messages that carry formats and attachments: agent/AgentMessage.ts with its decorators
-- (decorators/thread, decorators/service, decorators/attachment) and the message classes of
-- modules/credentials/protocol/v2/messages and modules/proofs/protocol/v2/messages. One record stands for all of these classes, which
-- differ in their type and in which of the fields they have.
use test_lib.Common.{String, Bool, true, false, Option, some, none, List, [], ◌==◌}

-- the class of a message: its `type`
pub data MessageClass : Type 0 where
  propose_credential offer_credential request_credential issue_credential : MessageClass
  propose_presentation request_presentation presentation : MessageClass

-- `type.messageName`; classes of one name are of one protocol and of its major version 2
unfoldable pub message_name : MessageClass → String
message_name propose_credential = "propose-credential"
message_name offer_credential = "offer-credential"
message_name request_credential = "request-credential"
message_name issue_credential = "issue-credential"
message_name propose_presentation = "propose-presentation"
message_name request_presentation = "request-presentation"
message_name presentation = "presentation"

-- models/CredentialFormatSpec.ts
pub record FormatSpec : Type 0 where
  pub attachment_id : String
  pub format : String

-- An attachment: its id and its data as a text, which the modelled code hands on and never reads.
pub record Attachment : Type 0 where
  pub id : String
  pub content : String

-- models/CredentialPreviewAttribute.ts
pub record PreviewAttribute : Type 0 where
  pub name : String
  pub mime_type : Option String
  pub value : String

-- decorators/service/ServiceDecorator.ts
pub record ServiceDecorator : Type 0 where
  pub recipient_keys : List String
  pub routing_keys : List String
  pub service_endpoint : String

pub record AgentMessage : Type 0 where
  pub id : String
  pub message_class : MessageClass
  -- the thread id of the ~thread decorator
  pub thread : Option String
  -- its parent thread id
  pub parent_thread : Option String
  pub comment : Option String
  pub formats : List FormatSpec
  pub attachments : List Attachment
  -- the attributes of the credential preview
  pub credential_preview : Option (List PreviewAttribute)
  pub goal_code : Option String
  -- of the requests for a presentation
  pub will_confirm : Bool
  pub present_multiple : Bool
  -- of the presentations
  pub last_presentation : Bool
  pub please_ack : Bool
  pub service : Option ServiceDecorator

-- a new message of a class with its id; a class sets the fields that it has
abbrev pub new_agent_message : MessageClass → String → AgentMessage
new_agent_message message_class id = record {
  id = id;
  message_class = message_class;
  thread = none;
  parent_thread = none;
  comment = none;
  formats = [];
  attachments = [];
  credential_preview = none;
  goal_code = none;
  will_confirm = false;
  present_multiple = false;
  last_presentation = true;
  please_ack = false;
  service = none;
}

-- `this.thread?.threadId ?? this.id`
abbrev pub thread_or_id : Option String → String → String
thread_or_id none id = id
thread_or_id (some thread) id = thread

-- `get threadId()` of ThreadDecoratorExtension.ts
abbrev pub thread_id : AgentMessage → String
thread_id message = thread_or_id message.thread message.id

-- `setThread({ threadId })` of ThreadDecoratorExtension.ts
abbrev pub set_thread : String → AgentMessage → AgentMessage
set_thread id message = record message { thread = some id; parent_thread = none }

-- `setThread({ threadId, parentThreadId })`
abbrev pub set_thread_with_parent : String → Option String → AgentMessage → AgentMessage
set_thread_with_parent id parent message = record message {
  thread = some id;
  parent_thread = parent;
}

-- `canHandleMessageType` of utils/messageType.ts, between the classes of this file
unfoldable pub can_handle : MessageClass → MessageClass → Bool
unfolding message_name
can_handle expected given = message_name expected == message_name given

-- modules/common/messages/AckMessage.ts, whose status is always `OK` here
pub record AckMessage : Type 0 where
  pub id : String
  pub thread : Option String
  pub service : Option ServiceDecorator

-- modules/problem-reports/messages/ProblemReportMessage.ts: its description
pub record ProblemReportMessage : Type 0 where
  pub id : String
  pub thread : Option String
  pub parent_thread : Option String
  pub code : String
  pub en : String
