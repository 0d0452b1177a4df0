-- ===== src/Examples.antt =====
-- The theorems at concrete inputs, a file for each part of the program.
mod Queues
mod Tables
mod Threads
mod Sockets
mod Texts
mod Objects
mod Databases
mod Lives
mod Packets
mod Load
mod Starts
mod Lines
mod Service
mod Exchanges
