-- ===== src/Container.antt =====
-- Containers: src/container.h and src/container.cpp. Container/Iterator is the walk through all
-- that a container holds, Container/Query what may be put in and taken out, and Container/Change the
-- putting in and taking out; Container/Amounts counts what there is.
pub mod Iterator
pub mod Query
pub mod Change
pub mod Amounts
