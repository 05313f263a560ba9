-- ===== src/Lib.antt =====
-- A verification of adam, a static analyzer for Dalvik programs: the parts that are modelled
-- are the text that the analyzer reads, and the abstract values that its machine computes with.
--
-- The parts, and how they interact:
-- Stringpool: src/stringpool.c and include/stringpool.h. The pool keeps a copy of each string,
-- so that the other parts compare strings by address. `hash_func` is `_stringpool_hash_func`,
-- `accumulator_next` and `accumulator_hash` compute the same byte by byte, `query_imp` and
-- `query` are the searches in the hash table (Stringpool.Intern). A string is the list of its
-- bytes without the 0. The addresses that `malloc` returns are arguments.
-- Sexp: src/sexp.c. Sexp.Parse is the parser: a pointer into the text is a `Cursor`, the text
-- before it backwards and the text from it on. `sexp_parse` and `parse_list` take fuel, one for
-- each call and each round of the loop, of which every other one reads a byte; `parse_comment`
-- takes as much as there is text, and each of its rounds reads a byte. Sexp and Sexp.Match have
-- the patterns of `sexp_match`, Sexp.Print has paths, lengths and text. The address of a pooled
-- string is its hash with its bytes (`Pooled`). Allocation of expressions is taken to succeed.
-- Vector: src/vector.c and include/vector.h: arrays that double their memory. The results of
-- `realloc`, and what memory holds before it is written, are arguments.
-- DalvikType: src/dalvik/dalvik_type.c. Types are read from S-expressions, compared, hashed and
-- copied. The outcomes of the calls of `malloc` are a list of Booleans.
-- TagSet: src/tag/tag_set.c, with `tag_tracker_register_tagset` of src/tag/tag_tracker.c. Tag
-- sets with reference counts on a heap. TagSet.Items has the loops over the items, on lists;
-- TagSet has the functions, on a `State` that holds the heap, the next index, the address of
-- the empty set and whether the tracker has a transaction open. A fault is `none`. The merge
-- loop takes a round for each item of the two sets, the search a round for each item.
-- Address: the constant addresses of include/cesk/cesk_store.h, and Arithmetic: the functions
-- on them in include/cesk/cesk_arithmetic.h. A constant address is a number with a bit for each
-- of the signs that its value may have.
-- AllocTable: src/cesk/cesk_alloctab.c, the table that relates relocated addresses to those of
-- objects. The stores' tokens tell the entries of different stores apart. Lookup is about queries,
-- Sharing and Tokens about sequences of the calls that stores make, with the tokens given out.
-- CeskSet: src/cesk/cesk_set.c, the sets of addresses that values are, in a hash table that all
-- sets share. CeskSet has the table, CeskSet.Methods and CeskSet.Change the functions, on a
-- state `Sets` that holds the chains of the table, the info entries, the next index, and the
-- state of the tag sets, whose functions they call. A node is known by its key; the list of a
-- set is in the order of the `next` pointers, with a mark on a node whose `prev` is set.
-- CeskSet.Valid has the invariant `IsValid`. A function that may copy a shared set returns the
-- set that the caller holds afterwards. Allocation is taken to succeed.
-- Dalvik.Label: src/dalvik/dalvik_label.c, the numbers of labels, and Dalvik.MemberDict:
-- src/dalvik/dalvik_memberdict.c, the dictionary of methods, fields and classes. Both are hash
-- tables of chains (Base.Chains), with the address of a name as its identity. The buffers of a
-- search by prefixes are the list of the nodes that are written to them, in order.
-- Store: src/cesk/cesk_store.c, with include/cesk/cesk_alloc_param.h: the virtual store, an
-- array of blocks of slots, on a `Memory` that holds the blocks by their addresses, since
-- forked stores share them. Store has the blocks and the allocation, which makes five attempts
-- as the code does, and Store.Access reading, counting and compaction. A value is its address
-- with a reference count. The number of slots in a block is that of a machine with pointers of
-- 8 bytes. The allocation tables that the stores use are those of AllocTable.
-- Object: src/cesk/cesk_object.c, with the wrappers of src/bci/bci_class.c. An object is the
-- list of its parts, one for each class; the functions of a built-in class are fields of its
-- record. The rounds of the comparison are as many as the object has parts.
-- Bci.NameTable: src/bci/bci_nametab.c, the hash table that leads from the path of a built-in class
-- to its wrapper.
-- Static: src/cesk/cesk_static.c, the table of static fields. A table is a root and a hash code; the
-- nodes of its segment tree stand in a store that all tables share, with their reference counts,
-- and the sets of the fields are those of CeskSet. Static has the tree: search, the copies that a
-- write makes (prepare_to_write); Insert the insertion, Table the operations of the frames, Iterate the
-- iterator and the hash that is computed anew, Compare the comparison, Query the look-up of a field by
-- its name. The loops down the tree run on fuel, the width of the segment, which each step halves.
-- A program is taken to have at most 2^30 static fields, so that the middle of a segment is computed
-- without overflow.
-- Base has what the parts share: tests, lists, signed numbers and bitwise operations over the
-- native numbers. Tests has the theorems at concrete inputs.
--
-- Machine integers: unsigned 32-bit fields wrap around at 2 ^ 32, and hashes are computed in 64
-- bits and cut, as the constants of include/constants.h, which are `unsigned long`, make the
-- code do.
--
-- Not modelled: the log and its messages; the release of memory, except for address sets, tag
-- sets and allocation tables; the text of tag sets, of address sets, of stores, of types and of static fields;
-- the tag tracker's own graph and the tag file system; the writing of values to stores, and the
-- rest of the abstract machine (values, the creation of objects, frames, blocks, methods,
-- relocation, differences); the other Dalvik parsers, the builtin classes and the command line
-- tools.
pub mod Base
pub mod Address
pub mod Arithmetic
pub mod AllocTable
pub mod TagSet
mod Tests
pub mod Static
pub mod Stringpool
pub mod Sexp
pub mod DalvikType
pub mod Vector
pub mod CeskSet
pub mod Dalvik
pub mod Store
pub mod Object
pub mod Bci
