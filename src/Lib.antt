-- ===== src/Lib.antt =====
-- A verification library for the key-value database of this repository: a log-structured store with
-- a table in memory, a write-ahead log, segments on disk with their indexes, a Bloom filter, and the
-- messages of its client and server.
--
-- How the parts interact. `StorageEngine::put` compresses the value, takes its checksum and puts a row
-- into the `MemTable`, which writes it to the `WriteAheadLog` first. A table at its limit is made a
-- segment by `makeSnapshot`: the rows of `createSortedStringsTable` go to a segment file, their keys
-- to the Bloom filter, and an `SSTableIndex` of them to an index file and into the `Index`. `get` asks
-- the table in memory and then the Bloom filter, the index and the segment. `open` reads options, log,
-- indexes and filter back from the directory. `handle` answers a `Request` with a `Response`.
--
-- Which file models which part:
--   Shared, Bytes, Action      lists, options and numbers; bytes, `std::istream` with short reads and
--                              the end-of-file loops; actions that change an object and may throw
--   Key                        include/omx/Key.h, src/Key.cpp
--   SsTableRow                 src/SSTableRow.h, src/SSTableRow.cpp
--   WriteAheadLog              src/WriteAheadLog.h, src/WriteAheadLog.cpp
--   SsTable                    src/SSTable.h, src/SSTable.cpp
--   MemTable                   src/MemTable.h, src/MemTable.cpp, src/MemTableKey.h
--   SsTableIndex               src/SSTableIndex.h, src/SSTableIndex.cpp
--   Index                      src/Index.h, src/Index.cpp
--   BloomFilter                src/BloomFilter.h
--   Hasher, Compression        src/Hasher, src/Compression
--   Options                    include/omx/Options.h
--   Message                    include/omx/Request.h, include/omx/Response.h, src/Request.cpp,
--                              src/Response.cpp
--   Disk                       the directory of a database, as src/StorageEngine.cpp uses it
--   StorageEngine              src/StorageEngine.h, src/StorageEngine.cpp: State, Opening, Snapshot,
--                              Access and Threads hold the code, the other modules what is shown
--                              of it
--   Networking                 src/Networking/ServerSession.cpp, src/Networking/Acceptor.cpp, and in
--                              Client src/Networking/ClientSession.cpp, and in Server
--                              src/Networking/ServerBase.cpp, src/Networking/DatabaseServerImpl.cpp
--   Database                   include/omx/Database.h, src/Database.cpp
--   Program                    the client program src/Networking/MainClient.cpp with
--                              src/Networking/DatabaseConnectorImpl.cpp; in Server the server program
--                              src/Networking/MainServer.cpp; in Example examples/main.cpp
--   File                       src/File.h, src/File.cpp
--   History                    the abstract view: a list of rows, of which a key's last one counts
--   Tests                      the inputs on which the theorems are applied
--
-- State and operations keep the code's names in snake case. An object is a record and a method a
-- function on it; a method that may throw gives an `Outcome`, and one of the engine is an `Action`,
-- which keeps what was done before an exception. A key is its 64-bit id. Machine integers keep their
-- wrap-around. A map is an ordered or an association list, and the order of an unordered map is an
-- argument. Uninitialized memory (`Runtime.garbage`), the largest string that can be allocated
-- (`Runtime.max_size`) and the functions of CityHash, MurmurHash3, LZ4 and Snappy (`Hashes`,
-- `Codecs`), the mapping of files (`Mapping`) and the addresses of rows are arguments.
--
-- Fuel: only the loops `while (!stream.eof())` run on fuel, two more than the file has bytes. Every
-- round that does not end the loop takes a byte, so that this is enough.
--
-- An engine is seen as two lists of rows, those in the segments and those in memory only, and
-- `StorageEngine.Invariant.Represents` says when it stands for them: the ordered map answers with the
-- last row in memory, and the index leads to the bytes of the last row in the segments.
--
-- An operation of the engine is one step. `put` and `remove` hold the lock alone while they change it, and
-- what they do before touches nothing that changes. `get` takes the lock, shared, twice, and
-- `StorageEngine.Threads` has it once more in the steps between which other threads can write.
--
-- A program is a function from what the system does (its command line, what asio reports, what is in a
-- directory) to how it ends and what it prints.
--
-- Not modelled: what a thread reads while another writes the same bytes; the callbacks of several
-- sessions that the threads of a server run at once, and an exception that ends one of these threads;
-- the parsers of command lines, log output and its tags, and error texts; the facades of include/omx
-- for the server and the connector, which only pass calls on, and the storage of hidden objects in
-- include/omx/internal. Disk errors and an exhausted memory, but for strings beyond `max_size`, are
-- not modelled: a file that is opened for writing can be opened and written.
pub mod Shared
pub mod Bytes
pub mod Key
pub mod SsTableRow
pub mod WriteAheadLog
pub mod SsTable
pub mod MemTable
pub mod SsTableIndex
pub mod Index
pub mod Options
pub mod Hasher
pub mod Compression
pub mod BloomFilter
pub mod Message
pub mod Action
pub mod Disk
pub mod StorageEngine
pub mod Networking
pub mod File
pub mod Database
pub mod Program
pub mod History
pub mod Tests
