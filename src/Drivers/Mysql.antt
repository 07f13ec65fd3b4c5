-- ===== src/Drivers/Mysql.antt =====
-- drivers/mysql/internal: the chunks of a full refresh.
pub mod Charset
pub mod Split
