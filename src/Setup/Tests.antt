-- ===== src/Setup/Tests.antt =====
-- The first set-up of an empty database.
use dohost.Base.{none, codes}
use dohost.Setup.{BootstrapInput}

abbrev founder : BootstrapInput
founder = record {
  name = codes "Ann";
  email = codes "ann@example.com";
  password = codes "correct horse";
  ip = none;
}

abbrev intruder : BootstrapInput
intruder = record founder { email = codes "mallory@example.com" }
