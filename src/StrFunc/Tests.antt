-- ===== src/StrFunc/Tests.antt =====
-- `StrToNumber` of project/SmartCam/module/src/strfunc.c on the largest number and one more.
use linux_comon.Prelude.{◌≡◌}
use linux_comon.Radio.Text.{codes}
use linux_comon.StrFunc.{hi_success, str_to_number}
use linux_comon.StrFunc.Exact.{str_to_number-Reads}

str_to_number-Reads_example : str_to_number (codes "0xFFFFffff") 7 ≡ (hi_success, 4294967295)
str_to_number-Reads_example = str_to_number-Reads (codes "0xFFFFffff") 7
