-- ===== src/Dalvik.antt =====
-- src/dalvik: the tables that the parsers of Dalvik code fill.
pub mod Label
pub mod MemberDict
