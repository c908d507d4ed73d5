-- ===== src/Lib.antt =====
-- GORN, a distributed hash map of text keys with a web crawler: nodes on a chord network route
-- each key to the node of its bucket, write batches of keys to files, and a sorter and a queue
-- daemon keep the files of known and of new keys.
--
-- The parts of the program and the files that model them:
--
--   Common            Boolean tests, lists by native numbers, strict orders; no code
--   Text              std::string as a list of bytes, its order, formatted stream input and output
--   Sorting           utils/data/sorting.h, and the use of std::sort and std::set
--   Hash              utils/hash/hash.h
--   Message           utils/serializers/serialize.h, store_message_serialize.h, find_message_serialize.h
--   Config            utils/info.h, ConfigGenerator/GenerateClusterConfigs.cpp
--   Daemon            HashTableDaemon/HashTableDaemon.cpp: routing, consumeItem and the queues
--   Batches           the sending loops of HashTableDaemon.cpp and Crawler/DistributedCrawler.cpp
--   Files             utils/data/data.h over a disk
--   Mutex             utils/data/distributed_mutex.h
--   Sorter            DataSorterDaemon/DataSorterDaemon.cpp
--   Fresh             DistributedQueue/DistributedQueue.cpp
--   Search            search_new of utils/data/data.h
--   Merging           sort_write_file, sort_files and sort_directory of utils/data/data.h
--   Threading         utils/multithreading/semaphore.h, producer_consumer_queue.h
--   Writers           the threads of HashTableDaemon/HashTableDaemon.cpp and Crawler/DistributedCrawler.cpp that collect items
--   Status            utils/serializers/system_status_serialize.h, and the status files of HashTableDaemon.cpp and DistributedCrawler.cpp
--   QueueFile         utils/data/queue_entry.h, queue_file.h
--   Server            utils/asio/server.h, and the send of utils/asio/client.h
--   Crawler           Crawler/DistributedCrawler.cpp: the links of a page, the black list, the visited nodes, and the addresses of the queue files; Crawler/Crawler.cpp less its drawing
--   System            utils/system/memory.h and get_tot_cpu_info.h
--   Viewer            StatusViewer/StatusViewer.cpp
--   Programs          MergeSort/main.cpp, DataGenerator/DataGenerator.cpp
--   Client            ClientInterface/ClientInterface.cpp
--   Examples          the theorems at concrete inputs, and runs
--
-- How they interact: a peer's message is a text that Message writes and reads; Daemon reads it,
-- routes each item by Config's links, and puts it into a queue; Batches takes the items of a queue
-- and hands texts of Message to the next node; Files and Mutex stand below the daemons that keep
-- files.
--
-- Numbers. A std::size_t is a natural number with its wrap-around written out. A char is a byte;
-- where the code widens a signed char, so does the model. A variable that a failed extraction
-- leaves unset has an arbitrary value, an argument of the function.
--
-- Bounds and fuel. A sending loop has one round more than it has items, and a full batch takes 99;
-- reading words has one round for each byte and one more; the scan of a page has two rounds more
-- than the page has bytes; the client's prompt runs as many rounds of its endless loop as it is
-- told; the loops of search_new and sort_write_file have two rounds more than the file has bytes
-- and the vectors entries; a text of enforce_uniqueness has two rounds more than the map has keys;
-- the doubling of link offsets has 64 rounds, since 2 ^ 64 wraps to 0. Decimal printing recurs on
-- accessibility.
--
-- Not modelled: the calls of Boost.Asio (a session takes what they report as its events), OpenGL,
-- sleeping, and what is printed to the console. Floating point numbers, with their arithmetic and
-- what a stream and the conversions do with them, are parameters of Status; std::set with a
-- comparator that is no strict weak order is one of Crawler; directory listings are arguments.
-- What is left out of each part is said in the manifest.
pub mod Batches
pub mod Client
pub mod Common
pub mod Config
pub mod Crawler
pub mod Daemon
pub mod Examples
pub mod Files
pub mod Fresh
pub mod Hash
pub mod Merging
pub mod Message
pub mod Mutex
pub mod Programs
pub mod QueueFile
pub mod Search
pub mod Server
pub mod Sorter
pub mod Sorting
pub mod Status
pub mod System
pub mod Text
pub mod Threading
pub mod Viewer
pub mod Writers
