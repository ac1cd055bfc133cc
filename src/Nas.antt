-- ===== src/Nas.antt =====
-- NAS security (nas/nas_security/security.go): the protection of the messages between the AMF and a
-- UE. The library that codes, ciphers and authenticates them is nas-cdac, which is not part of the
-- repository: its functions are the fields of `Library`, and what a theorem needs of them is a
-- hypothesis of that theorem. The mutex around the calculation of the MAC is not modelled.
pub mod Message
pub mod Encode
pub mod Samples
pub mod Decode
pub mod Identity
pub mod Handler
