-- ===== src/Tests.antt =====
-- The theorems at concrete inputs, and runs of the model.
mod Addresses
mod Tables
mod Tags
mod Sets
mod Texts
mod Reading
mod Growing
mod AddressSets
mod Dalvik
mod Stores
mod Objects
mod Statics
