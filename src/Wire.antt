-- ===== src/Wire.antt =====
-- Byte strings of backend/app/modules/data_firewall/signing.py: UTF-8, ASCII decimals and the
-- length prefix. The proofs are beside the definitions, in the modules below.
pub mod Utf8
pub mod Decimal
pub mod Prefix
