-- ===== src/Map.antt =====
-- The map of src/map.h and src/map.cpp: Map/Nodes and Map/Path are the search for a path,
-- Map/Target says where a path may end.
pub mod Nodes
pub mod Target
pub mod Path
pub mod Tree
pub mod Tiles
pub mod Sight
