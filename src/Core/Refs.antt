-- ===== src/Core/Refs.antt =====
-- crates/waitprims-core/src/refs.rs. Each newtype wraps one string, `as_str` gives it back, and
-- equality is that of the strings; so each is a name of the text.
use waitprims.Prelude.{String}

abbrev pub CapabilityToken : Type 0
CapabilityToken = String

abbrev pub ActorRef : Type 0
ActorRef = String

abbrev pub OpaqueRef : Type 0
OpaqueRef = String

abbrev pub PredicateRef : Type 0
PredicateRef = String

abbrev pub IdToken : Type 0
IdToken = String
