-- ===== src/Lib.antt =====
-- uCLbench: a set of micro-benchmarks for OpenCL devices, and the library that they share.
--
-- Every benchmark is a program of its own. It reads its command line with `getopt_long`, asks
-- cllib for the platforms and devices, and for each device chosen loads or writes a kernel, runs
-- it through OpenCL and prints what was measured. What stands here are the parts of the programs
-- that decide something themselves: the choice of platforms, devices and jobs, the sizes of
-- buffers and of ranges, the data and the kernels that are made up, the checks of results, and
-- what is printed.
--
-- Base: Boolean tests, lists, bytes, integers and the outcome `Run` of code that can fault or
--   whose loop is given a number of rounds. Numbers are natural numbers; where the code wraps
--   around, `% 2 ^ w` is written out, and a machine integer that can be negative is an `ℤ`.
-- Cllib.Errors: `oclErrorString`, `oclCheckErr` (cllib/clcommon.cpp).
-- Cllib.Platforms: `get_all_platforms`, `get_all_devices`; each loop is structural over the
--   platforms, and a cell of an array is `none` until it is written.
-- Cllib.Select: `myGetPlatformID`, both forms of `get_device_by_platform`.
-- Cllib.Getopt: `getopt_long` with its static and global variables as a state. A `goto again` goes
--   to the next word, so the number of words and one more rounds are enough.
-- Cllib.Kernels: both forms of `load_kernel`. Cllib.Clock: `gettimeofday`, `current_msecs`,
--   `elapsed_msecs`. Cllib.Dirname: `dirname` on the path's characters in front of the end mark, its
--   loop with a given number of rounds.
-- Cllib.Info: the records and getters of cllib/clinfo.h and cllib/clinfo.cpp over a heap of live
--   blocks, `get_device_info` and its counterparts, and in Cllib.Info.Report all that is printed.
-- CommandLine: the lists of devices and of sizes that arith_speed, buffer_bandwidth and
--   mem_streaming read in the same words, with `strtok` and `sscanf` (Scan), into the arrays
--   `used_devices` and `sizes` of their main functions; in Settings the loop over the options that
--   all six main functions have, for a table and a `switch` (each program's own are in its module
--   Settings), with as many rounds as the words have characters and ends, and one; and in Inputs
--   what buffer_bandwidth and mem_streaming read in all, and the order in which buffer_bandwidth
--   runs devices and sizes. A write behind an array is a `fault`. The product MAX_SIZES *
--   used_num_devices is not wrapped.
-- ArithSpeed: arith_speed/arith_speed.cpp. The tables of functions, in Kernel the part of
--   `genKernel` that writes the kernel's source at positions kept by hand (Writer: the array up to
--   its first NUL, and `pos`), in Jobs the functions chosen and the loop that halves the range of
--   work items; its bound is one round more than there are work items. Check is the check of the
--   results in `run_benchmark`, over any arithmetic; Bench has the calls of `run_benchmark`, and
--   Driver the loops of main. The loop over `vec` has 33 rounds, enough where --maxvec is below 2 ^
--   31; from there on neither the code's own loop nor the model's comes to an end.
-- Bandwidth: buffer_bandwidth/buffer_bandwidth.cpp, the three functions that measure a direction
--   of transfer, as code that makes calls of OpenCL (Opencl: the calls as a log, `return` and `exit`
--   as outcomes, and objects numbered in the order of their creation). Opencl.Held tells from a log
--   which objects are held, where a release that failed gives nothing back, Opencl.Honest what the
--   buffers contain, and Opencl.Triples has the rules for what holds before and behind such code.
--   Opencl.Answers is for an OpenCL whose calls succeed, and Opencl.Staged for loops in which such
--   calls, memory and early returns mix.
-- BranchPenalty: branch_penalty/branch_penalty.cpp, the patterns and the branch selector; Bench
--   has the calls of OpenCL for each device, and in Source `oclLoadProgSource` of
--   branch_penalty/oclutils.h. The loops over patterns have a known number of rounds, which is the
--   argument they recurse on.
-- MemLatency: mem_latency/mem_latency.cpp and the kernel mem_latency/global_latency.cl. The size
--   of the buffer, the chain of indices in it, the host's walk along it and the kernel's, and the
--   jobs that the command line asks for; in Bench the calls of `run_latency_benchmark`, in Driver
--   main, and in Serve a device that runs the kernel of global_latency.cl on the buffers that it was
--   given; what the kernels of the other two files write is left open. The walks are bounded by the
--   number of elements and one more.
-- Overheads: kernel_overheads/kernel_overheads.cpp, the text of the kernel that is generated from
--   numbers of `rand`, taken from left to right in a call, and its 16 MiB (Text, Pieces), the calls
--   of a run (Bench), and the devices that are run. The loop over lines has one round more than
--   there are lines.
-- Streaming: mem_streaming/mem_streaming.cpp, the numbers of work-items and of elements, the sizes
--   of buffers, and `measureLocalMemory` as calls of OpenCL (Measure). The loop that halves the size
--   of a group has one round more than that size.
-- Tests: runs at concrete inputs.
--
-- What OpenCL, the C library and the system answer is a parameter of the definition that uses it:
-- the results of queries, the values of the CL_ macros, the contents of files, the time. malloc is
-- taken to find room except where the code tests it. A command queue is taken to run its commands
-- in order, so what a call without waiting transfers is what stands there when it is made. Not
-- modelled: events as objects in branch_penalty and mem_latency, the measured times but for their
-- means in arith_speed and mem_latency and their statistics, floating-point arithmetic, the usage
-- texts, the build files, and the kernels in .cl files other than global_latency.cl.
pub mod Base
pub mod Cllib
pub mod CommandLine
pub mod Opencl
pub mod ArithSpeed
pub mod Bandwidth
pub mod BranchPenalty
pub mod MemLatency
pub mod Overheads
pub mod Streaming
pub mod Tests
