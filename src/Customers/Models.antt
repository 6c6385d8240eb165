-- ===== src/Customers/Models.antt =====
-- customers/models.py
use stream_house_c360_demo.Prelude.{ℕ, String, Option}
use stream_house_c360_demo.Scalars.{Datetime}

pub record CustomerCreate : Type 0 where
  pub first_name : String
  pub last_name : String
  pub email : String
  pub phone : Option String
  pub date_of_birth : Option Datetime
  pub gender : Option String
  pub address_line1 : Option String
  pub address_line2 : Option String
  pub city : Option String
  pub state : Option String
  pub postal_code : Option String
  pub country : String
  pub customer_since : Datetime
  pub segment : Option String
  pub status : String

-- every field may be left out
pub record CustomerUpdate : Type 0 where
  pub first_name : Option String
  pub last_name : Option String
  pub email : Option String
  pub phone : Option String
  pub date_of_birth : Option Datetime
  pub gender : Option String
  pub address_line1 : Option String
  pub address_line2 : Option String
  pub city : Option String
  pub state : Option String
  pub postal_code : Option String
  pub country : Option String
  pub customer_since : Option Datetime
  pub segment : Option String
  pub status : Option String

pub record Customer : Type 0 where
  pub first_name : String
  pub last_name : String
  pub email : String
  pub phone : Option String
  pub date_of_birth : Option Datetime
  pub gender : Option String
  pub address_line1 : Option String
  pub address_line2 : Option String
  pub city : Option String
  pub state : Option String
  pub postal_code : Option String
  pub country : String
  pub customer_since : Datetime
  pub segment : Option String
  pub status : String
  pub customer_id : ℕ
  pub created_at : Datetime
  pub updated_at : Datetime
