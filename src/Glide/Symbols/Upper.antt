-- ===== src/Glide/Symbols/Upper.antt =====
-- glide2x_impl.c, the second half of tblGlide2x: the decorated names of the Glide functions, in the
-- order of the numbers of g2xfuncs.h.
use qemu_win.Prelude.{List, [], ◌∷◌}
use Prim.Native.String.{String}

unfoldable pub syms_upper : List String
syms_upper =
    "_grTexNCCTable@8" ∷ "_grTexSource@16" ∷ "_grTexTextureMemRequired@8" ∷ "_grTriStats@8"
    ∷ "_gu3dfGetInfo@8" ∷ "_gu3dfLoad@8" ∷ "_guAADrawTriangleWithClip@12" ∷ "_guAlphaSource@4"
    ∷ "_guColorCombineFunction@4" ∷ "_guDrawPolygonVertexListWithClip@8"
    ∷ "_guDrawTriangleWithClip@12" ∷ "_guEncodeRLE16@16" ∷ "_guEndianSwapBytes@4"
    ∷ "_guEndianSwapWords@4" ∷ "_guFogGenerateExp2@8" ∷ "_guFogGenerateExp@8"
    ∷ "_guFogGenerateLinear@12" ∷ "_guFogTableIndexToW@4" ∷ "_guMPDrawTriangle@12" ∷ "_guMPInit@0"
    ∷ "_guMPTexCombineFunction@4" ∷ "_guMPTexSource@8" ∷ "_guMovieSetName@4" ∷ "_guMovieStart@0"
    ∷ "_guMovieStop@0" ∷ "_guTexAllocateMemory@60" ∷ "_guTexChangeAttributes@48"
    ∷ "_guTexCombineFunction@8" ∷ "_guTexCreateColorMipMap@0" ∷ "_guTexDownloadMipMap@12"
    ∷ "_guTexDownloadMipMapLevel@12" ∷ "_guTexGetCurrentMipMap@4" ∷ "_guTexGetMipMapInfo@4"
    ∷ "_guTexMemQueryAvail@4" ∷ "_guTexMemReset@0" ∷ "_guTexSource@4" ∷ "_grLfbBegin@0"
    ∷ "_grLfbBypassMode@4" ∷ "_grLfbEnd@0" ∷ "_grLfbGetReadPtr@4" ∷ "_grLfbGetWritePtr@4"
    ∷ "_grLfbOrigin@4" ∷ "_grLfbWriteMode@4" ∷ "_grSstOpen@24" ∷ "_grSstPassthruMode@4"
    ∷ "_guFbReadRegion@24" ∷ "_guFbWriteRegion@24" ∷ "_grSplash@0" ∷ "_grCoordinateSpace@4"
    ∷ "_grDepthRange@8" ∷ "_grDisable@4" ∷ "_grDrawVertexArray@12"
    ∷ "_grDrawVertexArrayContiguous@16" ∷ "_grEnable@4" ∷ "_grFinish@0" ∷ "_grFlush@0" ∷ "_grGet@12"
    ∷ "_grGetProcAddress@4" ∷ "_grGetString@4" ∷ "_grGlideGetVertexLayout@4"
    ∷ "_grGlideSetVertexLayout@4" ∷ "_grLfbWriteRegion@36" ∷ "_grLoadGammaTable@16"
    ∷ "_grQueryResolutions@8" ∷ "_grReset@4" ∷ "_grSelectContext@4" ∷ "_grSstWinClose@4"
    ∷ "_grTexDownloadTable@8" ∷ "_grTexDownloadTablePartial@16" ∷ "_grTexNCCTable@4"
    ∷ "_grVertexLayout@12" ∷ "_grViewport@16" ∷ "_guGammaCorrectionRGB@12"
    ∷ "_grGetGammaTableExt@16" ∷ "_grChromaRangeModeExt@4" ∷ "_grChromaRangeExt@12"
    ∷ "_grTexChromaModeExt@8" ∷ "_grTexChromaRangeExt@16" ∷ "_grColorCombineExt@40"
    ∷ "_grAlphaCombineExt@40" ∷ "_grTexColorCombineExt@44" ∷ "_grTexAlphaCombineExt@44"
    ∷ "_grAlphaBlendFunctionExt@24" ∷ "_grConstantColorValueExt@8" ∷ "_grColorMaskExt@16"
    ∷ "_grTBufferWriteMaskExt@4" ∷ "_grBufferClearExt@16" ∷ "_grTextureBufferExt@28"
    ∷ "_grTextureAuxBufferExt@28" ∷ "_grAuxBufferExt@4" ∷ "_grStencilFuncExt@12"
    ∷ "_grStencilMaskExt@4" ∷ "_grStencilOpExt@12" ∷ "_grLfbConstantStencilExt@4"
    ∷ "_grSstWinOpenExt@32" ∷ []
