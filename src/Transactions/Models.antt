-- ===== src/Transactions/Models.antt =====
-- transactions/models.py
use stream_house_c360_demo.Prelude.{ℕ, String, Option}
use stream_house_c360_demo.Scalars.{Float, Datetime}

pub record TransactionCreate : Type 0 where
  pub account_id : ℕ
  pub customer_id : ℕ
  pub transaction_type : String
  pub amount : Float
  pub currency : String
  pub description : Option String
  pub merchant_name : Option String
  pub merchant_category : Option String
  pub channel : Option String
  pub status : String
  pub transacted_at : Datetime
  pub posted_at : Option Datetime

pub record Transaction : Type 0 where
  pub account_id : ℕ
  pub customer_id : ℕ
  pub transaction_type : String
  pub amount : Float
  pub currency : String
  pub description : Option String
  pub merchant_name : Option String
  pub merchant_category : Option String
  pub channel : Option String
  pub status : String
  pub transacted_at : Datetime
  pub posted_at : Option Datetime
  pub transaction_id : ℕ
  pub created_at : Datetime
