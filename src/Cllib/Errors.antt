-- ===== src/Cllib/Errors.antt =====
-- Error codes and their texts: `oclErrorString` and `oclCheckErr` of cllib/clcommon.cpp. The values
-- of the CL_ macros are those of OpenCL's headers: a parameter, by the macro's name.
pub mod Texts
use u_clbench.Base.{ℕ, Bool, true, false, List, [], ◌∷◌, ◌++◌, if◌then◌else◌, not}
use u_clbench.Base.Int.{ℤ, ◌==ℤ◌}
use u_clbench.Base.Text.{Bytes, codes, integer}

abbrev pub unexpected : Bytes
unexpected = codes "Unexpected error has occured"

-- The labels of the `switch` and what it returns for each; `CL_SUCCESS` leads to the last line.
unfoldable pub cases : List (Bytes × Bytes)
cases =
    (codes "CL_SUCCESS", codes "Unexpected error has occured")
    ∷ (codes "CL_DEVICE_NOT_FOUND", codes "DEVICE NOT FOUND")
    ∷ (codes "CL_DEVICE_NOT_AVAILABLE", codes "DEVICE NOT AVAILABLE")
    ∷ (codes "CL_COMPILER_NOT_AVAILABLE", codes "COMPILER NOT AVAILABLE")
    ∷ (codes "CL_MEM_OBJECT_ALLOCATION_FAILURE", codes "MEM OBJECT ALLOCATION FAILURE")
    ∷ (codes "CL_OUT_OF_RESOURCES", codes "OUT OF RESOURCES")
    ∷ (codes "CL_OUT_OF_HOST_MEMORY", codes "OUT OF HOST MEMORY")
    ∷ (codes "CL_PROFILING_INFO_NOT_AVAILABLE", codes "PROFILING INFO NOT AVAILABLE")
    ∷ (codes "CL_MEM_COPY_OVERLAP", codes "MEM COPY OVERLAP")
    ∷ (codes "CL_IMAGE_FORMAT_MISMATCH", codes "IMAGE FORMAT MISMATCH")
    ∷ (codes "CL_IMAGE_FORMAT_NOT_SUPPORTED", codes "IMAGE FORMAT NOT SUPPORTED")
    ∷ (codes "CL_BUILD_PROGRAM_FAILURE", codes "BUILD PROGRAM FAILURE")
    ∷ (codes "CL_MAP_FAILURE", codes "MAP FAILURE")
    ∷ (codes "CL_INVALID_DEVICE_TYPE", codes "INVALID DEVICE TYPE")
    ∷ (codes "CL_INVALID_PLATFORM", codes "INVALID PLATFORM")
    ∷ (codes "CL_INVALID_DEVICE", codes "INVALID DEVICE")
    ∷ (codes "CL_INVALID_CONTEXT", codes "INVALID CONTEXT")
    ∷ (codes "CL_INVALID_HOST_PTR", codes "INVALID HOST PTR")
    ∷ (codes "CL_INVALID_MEM_OBJECT", codes "INVALID MEM OBJECT")
    ∷ (codes "CL_INVALID_IMAGE_FORMAT_DESCRIPTOR", codes "INVALID IMAGE FORMAT DESCRIPTOR")
    ∷ (codes "CL_INVALID_IMAGE_SIZE", codes "INVALID IMAGE SIZE")
    ∷ (codes "CL_INVALID_SAMPLER", codes "INVALID SAMPLER")
    ∷ (codes "CL_INVALID_BINARY", codes "INVALID BINARY")
    ∷ (codes "CL_INVALID_BUILD_OPTIONS", codes "INVALID BUILD OPTIONS")
    ∷ (codes "CL_INVALID_PROGRAM", codes "INVALID PROGRAM")
    ∷ (codes "CL_INVALID_PROGRAM_EXECUTABLE", codes "INVALID PROGRAM EXECUTABLE")
    ∷ (codes "CL_INVALID_KERNEL_NAME", codes "INVALID KERNEL NAME")
    ∷ (codes "CL_INVALID_KERNEL_DEFINITION", codes "INVALID KERNEL DEFINITION")
    ∷ (codes "CL_INVALID_KERNEL", codes "INVALID KERNEL")
    ∷ (codes "CL_INVALID_ARG_INDEX", codes "INVALID ARG INDEX")
    ∷ (codes "CL_INVALID_ARG_VALUE", codes "INVALID ARG VALUE")
    ∷ (codes "CL_INVALID_ARG_SIZE", codes "INVALID ARG SIZE")
    ∷ (codes "CL_INVALID_KERNEL_ARGS", codes "INVALID KERNEL ARGS")
    ∷ (codes "CL_INVALID_WORK_DIMENSION", codes "INVALID WORK DIMENSION")
    ∷ (codes "CL_INVALID_WORK_GROUP_SIZE", codes "INVALID WORK GROUP SIZE")
    ∷ (codes "CL_INVALID_GLOBAL_OFFSET", codes "INVALID GLOBAL OFFSET")
    ∷ (codes "CL_INVALID_EVENT_WAIT_LIST", codes "INVALID EVENT WAIT LIST")
    ∷ (codes "CL_INVALID_EVENT", codes "INVALID EVENT")
    ∷ (codes "CL_INVALID_OPERATION", codes "INVALID OPERATION")
    ∷ (codes "CL_INVALID_GL_OBJECT", codes "INVALID GL OBJECT")
    ∷ (codes "CL_INVALID_BUFFER_SIZE", codes "INVALID BUFFER SIZE")
    ∷ (codes "CL_INVALID_MIP_LEVEL", codes "INVALID MIP LEVEL")
    ∷ (codes "CL_INVALID_VALUE", codes "INVALID_VALUE")
    ∷ (codes "CL_INVALID_QUEUE_PROPERTIES", codes "INVALID_QUEUE_PROPERTIES")
    ∷ (codes "CL_INVALID_COMMAND_QUEUE", codes "INVALID_COMMAND_QUEUE")
    ∷ []

-- `switch(err)` from one of its labels on
pub scan : (Bytes → ℤ) → ℤ → List (Bytes × Bytes) → Bytes
scan value err [] = unexpected
scan value err ((label, text) ∷ rest) = if err ==ℤ value label then text else scan value err rest

unfoldable pub ocl_error_string : (Bytes → ℤ) → ℤ → Bytes
unfolding cases scan
ocl_error_string value err = scan value err cases

-- The result, and what is written to stderr.
unfoldable pub ocl_check_err : (Bytes → ℤ) → ℤ → Bytes → Bool × Bytes
unfolding ocl_error_string
ocl_check_err value err message =
    if not (err ==ℤ value (codes "CL_SUCCESS"))
    then (
      false,
      codes "ERROR "
          ++ (integer err
              ++ (codes ": "
                  ++ (ocl_error_string value err ++ (codes "\n" ++ (message ++ codes "\n"))))),
    )
    else (true, [])
