-- ===== src/Esim/Examples.antt =====
-- Concrete activation codes and operations of pysim/pySim/esim/__init__.py.
use virtual_rsp.Common.{true, false, some, ok, ◌≡◌, refl}
use virtual_rsp.Esim.ActivationCode.{
  ActivationCode, has_dollar, new_code, from_string, oid_part, to_string,
}
use virtual_rsp.Esim.Reading.{IsOid, from_string-to_string}

abbrev code : ActivationCode
code = record {
  hostname = "SMDP.GSMA.COM";
  token = "04386-AGYFT";
  oid = some "1.3.6.1.4.1.31746";
  cc_required = true;
  format = 1;
}

code-text : to_string false code ≡ "1$SMDP.GSMA.COM$04386-AGYFT$1.3.6.1.4.1.31746$1"
unfolding to_string oid_part
code-text = refl

code-IsOid : IsOid (some "1.3.6.1.4.1.31746")
unfolding IsOid has_dollar
code-IsOid = (refl, refl)

code-made : new_code "SMDP.GSMA.COM" "04386-AGYFT" (some "1.3.6.1.4.1.31746") true ≡ ok code
unfolding new_code has_dollar
code-made = refl

from_string-to_string_example : from_string (to_string false code) ≡ ok code
from_string-to_string_example =
    from_string-to_string "SMDP.GSMA.COM" "04386-AGYFT" (some "1.3.6.1.4.1.31746") true code
      code-IsOid code-made
