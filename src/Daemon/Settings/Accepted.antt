-- ===== src/Daemon/Settings/Accepted.antt =====
-- What a configuration that is accepted keeps to.
use ezcap.Base.Json.{Json}
use ezcap.Base.Result.{Result}
use ezcap.Policy.Types.{Policy}
