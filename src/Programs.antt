-- ===== src/Programs.antt =====
-- Two small programs: MergeSort/main.cpp and DataGenerator/DataGenerator.cpp. The values of `rand` are
-- an argument, the numbers that its calls return in order.
pub mod MergeSort
pub mod DataGenerator
