-- ===== src/Manager.antt =====
-- manager/: the optional composition of a bus with its extensions.
pub mod Registry
pub mod Parts
