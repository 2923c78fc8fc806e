-- ===== src/Core/Manager/Listen/Unending.antt =====
-- Whether `listen` comes to its end without an error.
use cable_rs.Base.Equality.{nat_eq}
use cable_rs.Cable.Crypto.{Crypto}
use cable_rs.Cable.Desert.{Desert}
use cable_rs.Cable.Message.{Message}
use cable_rs.Core.Map.{Map}
