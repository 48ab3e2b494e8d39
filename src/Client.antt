-- ===== src/Client.antt =====
-- sysmodule/source/slp/slp_client.{h,c}: the relay client without its frame codecs, which stand with the tunnel. Dns resolves the
-- relay's name, Connection holds the socket and the login.
pub mod Dns
pub mod Connection
pub mod Spelling
pub mod Names
pub mod Answers
pub mod Login
pub mod Tests
