-- ===== src/Components.antt =====
-- network/component_list.go: the components of a node.
pub mod ComponentList
pub mod Registry
