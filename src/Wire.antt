-- ===== src/Wire.antt =====
-- The message format of src/05_ftp: include/const.h (Const), the machine (Host, Machines) and
-- include/MsgNode.h (Node), with what a node puts on the wire (Layout).
pub mod Const
pub mod Host
pub mod Machines
pub mod Node
pub mod Layout
