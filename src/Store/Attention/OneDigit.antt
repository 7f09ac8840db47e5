-- ===== src/Store/Attention/OneDigit.antt =====
-- internal/store/workflows.go: quiet hours that end at an hour written with one digit, which `time.Parse` accepts.
use Prim.Native.Char.{Char}
use Prim.Native.String.compare
use tintwire.Prelude.{String, string_eq}
