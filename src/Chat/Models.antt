-- ===== src/Chat/Models.antt =====
-- chat/models.py
use stream_house_c360_demo.Prelude.{String, Option, List}

-- the values of `ChatMessage.role`
pub data Role : Type 0 where
  user assistant : Role

pub record ChatMessage : Type 0 where
  pub role : Role
  pub content : String

pub record ChatRequest : Type 0 where
  pub message : String
  pub history : List ChatMessage
  pub session_id : Option String

pub record ChatResponse : Type 0 where
  pub reply : String
  pub source_mode : String
  pub session_id : Option String

pub record WelcomeResponse : Type 0 where
  pub prompt : String
  pub source_mode : String
