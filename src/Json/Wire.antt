-- ===== src/Json/Wire.antt =====
-- What the wire protocols use of `serde_json::Value` besides the stores: strings, arrays, and values
-- as bytes. Parameters of the model, as in Json.
use stplr.Base.{◌≡◌, Option, some, List, nat_Eq}
use stplr.Text.{Text}
use stplr.Text.Utf8.{Bytes}
use stplr.Json.{Json}

pub record WireJson (V : Type 0) : Type 0 where
  -- `Value::String`
  pub string : Text → V
  -- `Value::Array`
  pub array : V → Option (List V)
  -- `to_vec(v).unwrap_or_default()`
  pub to_vec : V → Bytes
  -- `from_slice`
  pub from_slice : Bytes → Option V

-- The documented behaviour that the code relies on.
pub record IsWireJson {V : Type 0} (j : Json V) (k : WireJson V) : Type 0 where
  pub as_str-string : (s : Text) → j.as_str (k.string s) ≡ some s
