-- ===== src/Format/Directive.antt =====
-- The conversions of numbers by `vsprintf` of kernel/vsprintf.c: flags, width, precision and a letter.
use toutatis.Format.Conversion.{Conversion}
