-- ===== src/Accounts/Models.antt =====
-- accounts/models.py
use stream_house_c360_demo.Prelude.{ℕ, String, Option}
use stream_house_c360_demo.Scalars.{Float, Date, Datetime}

pub record AccountCreate : Type 0 where
  pub customer_id : ℕ
  pub account_number : String
  pub account_type : String
  pub currency : String
  pub balance : Float
  pub credit_limit : Option Float
  pub opened_date : Date
  pub closed_date : Option Date
  pub status : String

-- every field may be left out
pub record AccountUpdate : Type 0 where
  pub customer_id : Option ℕ
  pub account_number : Option String
  pub account_type : Option String
  pub currency : Option String
  pub balance : Option Float
  pub credit_limit : Option Float
  pub opened_date : Option Date
  pub closed_date : Option Date
  pub status : Option String

pub record Account : Type 0 where
  pub customer_id : ℕ
  pub account_number : String
  pub account_type : String
  pub currency : String
  pub balance : Float
  pub credit_limit : Option Float
  pub opened_date : Date
  pub closed_date : Option Date
  pub status : String
  pub account_id : ℕ
  pub created_at : Datetime
  pub updated_at : Datetime
